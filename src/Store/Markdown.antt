-- ===== src/Store/Markdown.antt =====
-- The documents of crates/studio-store/src/adr.rs and crates/studio-store/src/finding.rs: a fence, YAML,
-- a fence, and the body.
pub mod Fences
use cobrust_studio.Base.{
  ℕ, ◌==◌, Bool, true, false, ◌&&◌, List, [], ◌∷◌, ◌++◌, Option, none, some, Text, codes, eq_text,
  Result, ok, err, if◌then◌else◌,
}
use cobrust_studio.Host.{FilePath}
use cobrust_studio.Store.{StoreError, missing_frontmatter}

starts_line_feed : Text → Bool
starts_line_feed [] = false
starts_line_feed (c ∷ s) = c == 10

-- `\r\n` for `\n`
line_feeds : Text → Text
unfolding starts_line_feed
line_feeds [] = []
line_feeds (c ∷ s) = if c == 13 && starts_line_feed s then line_feeds s else c ∷ line_feeds s

put_first : ℕ → List Text → List Text
put_first c [] = (c ∷ []) ∷ []
put_first c (l ∷ ls) = (c ∷ l) ∷ ls

split_at_feeds : Text → List Text
unfolding put_first
split_at_feeds [] = []
split_at_feeds (c ∷ s) = if c == 10 then [] ∷ split_at_feeds s else put_first c (split_at_feeds s)

-- `str::lines`
unfoldable pub lines : Text → List Text
unfolding line_feeds split_at_feeds
lines s = split_at_feeds (line_feeds s)

abbrev pub fence : Text
fence = codes "---"

record Split : Type 0 where
  yaml : Text
  body : Text
  found_close : Bool
  in_body : Bool

split_line : Text → Split → Split
split_line line s =
    if s.in_body
    then record s { body = s.body ++ (line ++ 10 ∷ []) }
    else if eq_text line fence
    then record s { found_close = true; in_body = true }
    else record s { yaml = s.yaml ++ (line ++ 10 ∷ []) }

split_lines : List Text → Split → Split
unfolding split_line
split_lines [] s = s
split_lines (l ∷ ls) s = split_lines ls (split_line l s)

closed : FilePath → Split → Result StoreError (Text × Text)
closed path s = if s.found_close then ok (s.yaml, s.body) else err (missing_frontmatter path)

split_after : FilePath → List Text → Result StoreError (Text × Text)
unfolding split_lines closed
split_after path [] = err (missing_frontmatter path)
split_after path (first ∷ rest) =
    if eq_text first fence
    then closed path
        (split_lines rest (record { yaml = []; body = []; found_close = false; in_body = false }))
    else err (missing_frontmatter path)

-- `split_frontmatter`
unfoldable pub split_frontmatter : FilePath → Text → Result StoreError (Text × Text)
unfolding lines split_after
split_frontmatter path text = split_after path (lines text)

-- `trim_start_matches('\n')`
unfoldable pub trim_line_feeds : Text → Text
trim_line_feeds [] = []
trim_line_feeds (c ∷ s) = if c == 10 then trim_line_feeds s else c ∷ s
