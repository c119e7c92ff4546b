-- ===== src/Config/Tags.antt =====
-- The tags `provider:model` of crates/studio-router/src/config.rs, read and written.
use cobrust_studio.Base.{
  true, false, Option, none, some, List, [], ◌∷◌, ◌≡◌, ◌↔◌, refl, sym, ap, ◌∙◌, arith, Text, trim,
  split_first, is_empty, contains_char, contains_char-trim, IsTrimmed, trim-IsTrimmed,
  split_first-append, split_first-contains_char, All, ok, >>-eq-ok,
}
use mathlib.Core.Path.{subst}
use cobrust_studio.Config.{
  ProviderModel, ProviderConfig, RouterConfig, parse, both_parts, parts, tag_of, contains_key,
  validate, check_tag, check_tags,
}

-- What `parse` makes of the two parts: trimmed, not empty, and no colon in the provider.
pub record IsTag (pm : ProviderModel) : Type 0 where
  pub provider_trimmed : IsTrimmed pm.provider
  pub model_trimmed : IsTrimmed pm.model
  pub provider_filled : is_empty pm.provider ≡ false
  pub model_filled : is_empty pm.model ≡ false
  pub no_colon : contains_char b':' pm.provider ≡ false

both_parts-IsTag :
    (p m : Text) {pm : ProviderModel}
    → IsTrimmed p
    → IsTrimmed m
    → contains_char b':' p ≡ false
    → both_parts p m ≡ some pm
    → IsTag pm
unfolding both_parts
both_parts-IsTag [] m hp hm k h = cc
both_parts-IsTag (c ∷ p) [] hp hm k h = cc
both_parts-IsTag (c ∷ p) (d ∷ m) {pm} hp hm k h =
    let e : record { provider = c ∷ p; model = d ∷ m } ≡ pm = cc in
    subst IsTag e (record {
      provider_trimmed = hp;
      model_trimmed = hm;
      provider_filled = refl;
      model_filled = refl;
      no_colon = k;
    })

parts-IsTag :
    (p : Text) (m : Option Text) {pm : ProviderModel}
    → contains_char b':' p ≡ false
    → parts p m ≡ some pm
    → IsTag pm
unfolding parts
parts-IsTag p none k h = cc
parts-IsTag p (some m) k h =
    both_parts-IsTag (trim p) (trim m) (trim-IsTrimmed p) (trim-IsTrimmed m)
      (contains_char-trim b':' p k) h

pub parse-IsTag : (s : Text) {pm : ProviderModel} → parse s ≡ some pm → IsTag pm
unfolding parse
parse-IsTag s h = parts-IsTag (split_first b':' s).0 _ (split_first-contains_char b':' s) h

-- A tag that is trimmed and not empty in both parts, with no colon in its provider, is read back.
pub parse-tag_of : (pm : ProviderModel) → IsTag pm → parse (tag_of pm) ≡ some pm
unfolding parse tag_of parts both_parts
parse-tag_of pm t =
    rw (split_first-append b':' pm.provider pm.model t.no_colon)
      (rw (t.provider_trimmed, t.model_trimmed) (rw (t.provider_filled, t.model_filled)))

-- The key of the latency table, `provider:model`, is another for every other parsed tag.
pub tag_of_injective :
    (s t : Text) (p q : ProviderModel)
    → parse s ≡ some p
    → parse t ≡ some q
    → tag_of p ≡ tag_of q
    → p ≡ q
tag_of_injective s t p q hp hq e =
    let same : some p ≡ some q =
      sym (parse-tag_of p (parse-IsTag s hp)) ∙ ap parse e ∙ parse-tag_of q (parse-IsTag t hq) in
    cc

-- A tag that parses, and names a provider of the table.
abbrev pub IsDeclared : List (Text × ProviderConfig) → Text → Type 0
IsDeclared providers tag =
    (pm : ProviderModel) × (parse tag ≡ some pm) × (contains_key pm.provider providers ≡ true)

check_tag-IsDeclared :
    (providers : List (Text × ProviderConfig)) (tag : Text)
    → (check_tag providers tag ≡ ok tt) ↔ IsDeclared providers tag
unfolding check_tag
check_tag-IsDeclared providers tag = (forth, back)
  where
    forth : check_tag providers tag ≡ ok tt → IsDeclared providers tag
    forth h = ground arith

    back : IsDeclared providers tag → check_tag providers tag ≡ ok tt
    back d = ground arith

check_tags-IsDeclared :
    (providers : List (Text × ProviderConfig)) (tags : List Text)
    → (check_tags providers tags ≡ ok tt) ↔ All (IsDeclared providers) tags
unfolding check_tags
check_tags-IsDeclared providers [] = (λ h. tt, λ h. refl)
check_tags-IsDeclared providers (tag ∷ tags) =
    let here = check_tag-IsDeclared providers tag in
    let there = check_tags-IsDeclared providers tags in
    (
      λ h.
          let (first, later) = >>-eq-ok (check_tag providers tag) (check_tags providers tags) h in
          (here.0 first, there.0 later),
      λ h. rw (here.1 h.0) (there.1 h.1),
    )

-- A configuration is accepted exactly when each preferred tag parses and names a declared provider.
pub validate-IsDeclared :
    (cfg : RouterConfig)
    → (validate cfg ≡ ok tt) ↔ All (IsDeclared cfg.providers) cfg.router.preferred
unfolding validate
validate-IsDeclared cfg = check_tags-IsDeclared cfg.providers cfg.router.preferred
