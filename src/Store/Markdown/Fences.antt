-- ===== src/Store/Markdown/Fences.antt =====
-- What `split_frontmatter`, in crates/studio-store/src/adr.rs and crates/studio-store/src/finding.rs,
-- reads of a document.
use mathlib.Core.List.{append_assoc, append-nil}
use cobrust_studio.Base.{
  ℕ, ◌==◌, ◌≡◌, refl, sym, ap, ◌∙◌, arith, true, false, List, [], ◌∷◌, ◌++◌, Text, codes, eq_text,
  eq_text_refl, ok, All, All-append, contains_char, neither,
}
use cobrust_studio.Host.{FilePath}
use cobrust_studio.Store.Markdown.{
  starts_line_feed, line_feeds, put_first, split_at_feeds, lines, fence, split_line, split_lines,
  closed, split_after, split_frontmatter,
}

-- the lines with a line feed behind each
unfoldable pub unlines : List Text → Text
unlines [] = []
unlines (l ∷ ls) = l ++ 10 ∷ unlines ls

-- a line: no line feed and no carriage return
abbrev pub IsLine : Text → Type 0
IsLine l = (contains_char 10 l ≡ false) × (contains_char 13 l ≡ false)

==_flip : (a b : ℕ) → (a == b) ≡ false → (b == a) ≡ false
==_flip a b h = ground (arith, h)

line_feeds-line : (l s : Text) → IsLine l → line_feeds (l ++ 10 ∷ s) ≡ l ++ 10 ∷ line_feeds s
unfolding line_feeds contains_char starts_line_feed
line_feeds-line [] s h = refl
line_feeds-line (c ∷ l) s (h, k) =
    let (other, k') = neither (13 == c) (contains_char 13 l) k in
    let (_, h') = neither (10 == c) (contains_char 10 l) h in
    rw (==_flip 13 c other) (ap (λ t. c ∷ t) (line_feeds-line l s (h', k')))

split_at_feeds-line : (l s : Text) → IsLine l → split_at_feeds (l ++ 10 ∷ s) ≡ l ∷ split_at_feeds s
unfolding split_at_feeds contains_char put_first
split_at_feeds-line [] s h = refl
split_at_feeds-line (c ∷ l) s (h, k) =
    let (_, k') = neither (13 == c) (contains_char 13 l) k in
    let (other, h') = neither (10 == c) (contains_char 10 l) h in
    rw (==_flip 10 c other) (ap (put_first c) (split_at_feeds-line l s (h', k')))

line_feeds-unlines : (ls : List Text) → All IsLine ls → line_feeds (unlines ls) ≡ unlines ls
unfolding line_feeds unlines
line_feeds-unlines [] h = refl
line_feeds-unlines (l ∷ ls) (h, k) =
    line_feeds-line l (unlines ls) h ∙ ap (λ s. l ++ 10 ∷ s) (line_feeds-unlines ls k)

split_at_feeds-unlines : (ls : List Text) → All IsLine ls → split_at_feeds (unlines ls) ≡ ls
unfolding split_at_feeds unlines
split_at_feeds-unlines [] h = refl
split_at_feeds-unlines (l ∷ ls) (h, k) =
    split_at_feeds-line l (unlines ls) h ∙ ap (λ s. l ∷ s) (split_at_feeds-unlines ls k)

pub lines-unlines : (ls : List Text) → All IsLine ls → lines (unlines ls) ≡ ls
unfolding lines
lines-unlines ls h = ap split_at_feeds (line_feeds-unlines ls h) ∙ split_at_feeds-unlines ls h

snoc-unlines :
    (s l : Text) (ls : List Text) → (s ++ (l ++ 10 ∷ [])) ++ unlines ls ≡ s ++ unlines (l ∷ ls)
unfolding unlines
snoc-unlines s l ls =
    append_assoc s (l ++ 10 ∷ []) (unlines ls)
    ∙ ap (λ x. s ++ x) (append_assoc l (10 ∷ []) (unlines ls))

split_lines-body :
    (bs : List Text) (y b : Text)
    → split_lines bs (record { yaml = y; body = b; found_close = true; in_body = true })
      ≡ record { yaml = y; body = b ++ unlines bs; found_close = true; in_body = true }
unfolding split_lines split_line unlines
split_lines-body [] y b =
    ap (λ x. record { yaml = y; body = x; found_close = true; in_body = true }) (sym (append-nil b))
split_lines-body (l ∷ bs) y b =
    split_lines-body bs y (b ++ (l ++ 10 ∷ []))
    ∙ ap (λ x. record { yaml = y; body = x; found_close = true; in_body = true })
        (snoc-unlines b l bs)

split_line-fence :
    (y : Text)
    → split_line fence (record { yaml = y; body = []; found_close = false; in_body = false })
      ≡ record { yaml = y; body = []; found_close = true; in_body = true }
unfolding split_line
split_line-fence y = rw (eq_text_refl fence) refl

split_line-yaml :
    (l y : Text)
    → eq_text l fence ≡ false
    → split_line l (record { yaml = y; body = []; found_close = false; in_body = false })
      ≡ record { yaml = y ++ (l ++ 10 ∷ []); body = []; found_close = false; in_body = false }
unfolding split_line
split_line-yaml l y h = rw h refl

split_lines-yaml :
    (ys bs : List Text) (y : Text)
    → All (λ l. eq_text l fence ≡ false) ys
    → split_lines
        (ys ++ fence ∷ bs)
        (record { yaml = y; body = []; found_close = false; in_body = false })
      ≡ record { yaml = y ++ unlines ys; body = unlines bs; found_close = true; in_body = true }
unfolding split_lines split_line unlines
split_lines-yaml [] bs y h =
    ap (split_lines bs) (split_line-fence y)
    ∙ (split_lines-body bs y []
        ∙ ap (λ x. record { yaml = x; body = unlines bs; found_close = true; in_body = true })
            (sym (append-nil y)))
split_lines-yaml (l ∷ ys) bs y (h, k) =
    ap (split_lines (ys ++ fence ∷ bs)) (split_line-yaml l y h)
    ∙ (split_lines-yaml ys bs (y ++ (l ++ 10 ∷ [])) k
        ∙ ap (λ x. record { yaml = x; body = unlines bs; found_close = true; in_body = true })
            (snoc-unlines y l ys))

fence-IsLine : IsLine fence
unfolding contains_char codes
fence-IsLine = (refl, refl)

-- A document of lines, with a fence in front of the first part and behind it, is split into the two
-- parts, if no line of the first part is a fence, and no line has a line feed or a carriage return.
pub split_frontmatter-unlines :
    (path : FilePath) (ys bs : List Text)
    → All IsLine ys
    → All IsLine bs
    → All (λ l. eq_text l fence ≡ false) ys
    → split_frontmatter path (unlines (fence ∷ ys ++ fence ∷ bs)) ≡ ok (unlines ys, unlines bs)
unfolding split_frontmatter split_after closed
split_frontmatter-unlines path ys bs hy hb fenced =
    ap (split_after path) (
      lines-unlines (fence ∷ ys ++ fence ∷ bs)
        (fence-IsLine, All-append IsLine ys (fence ∷ bs) hy (fence-IsLine, hb)))
    ∙ (rw (eq_text_refl fence) (ap (closed path) (split_lines-yaml ys bs [] fenced)))
