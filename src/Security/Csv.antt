-- ===== src/Security/Csv.antt =====
-- canonical_csv of security/actor_signature.py: the list that a header stands for is the one that its
-- canonical text stands for.
use production_support_agent.Security.Claims.{stripped_items, canonical_csv, csv_items, comma, text}
use production_support_agent.Prelude.{
  String, ◌≡◌, refl, ap, ◌∙◌, true, not, List, [], ◌∷◌, map, nat_eq, string_eq, All, is_blank,
  strip, All-zip, select, Lacks, split, All-select, join, All-select_of, lstrip, split-Lacks,
  All-of_map, rstrip, All-intro, All-map, split-join, strip-strip, strip-Lacks,
}

-- An item that is stripped and not empty.
abbrev IsItem : String → Type 0
IsItem item = (not (is_blank item) ≡ true) × (strip item ≡ item)

stripped_items-IsItem : (xs : List String) → All IsItem (stripped_items xs)
unfolding stripped_items
stripped_items-IsItem xs =
    All-zip (λ item. not (is_blank item) ≡ true) (λ item. strip item ≡ item)
      (select (λ item. not (is_blank item)) (map strip xs))
      (All-select (λ item. not (is_blank item)) (map strip xs))
      (All-select_of (λ item. strip item ≡ item) (λ item. not (is_blank item)) (map strip xs)
        (All-of_map (λ item. strip item ≡ item) strip xs
          (All-intro (λ x. strip (strip x) ≡ strip x) xs strip-strip)))

stripped_items-kept : (xs : List String) → All IsItem xs → stripped_items xs ≡ xs
unfolding stripped_items select
stripped_items-kept [] h = refl
stripped_items-kept (x ∷ xs) h = rw (h.0.1, h.0.0) (ap (λ ys. x ∷ ys) (stripped_items-kept xs h.1))

stripped_items-Lacks :
    (xs : List String) → All (Lacks comma) xs → All (Lacks comma) (stripped_items xs)
unfolding stripped_items
stripped_items-Lacks xs h =
    All-select_of (Lacks comma) (λ item. not (is_blank item)) (map strip xs)
      (All-of_map (Lacks comma) strip xs (All-map _ _ xs (strip-Lacks comma) h))

-- The items of a text of items are the items.
stripped-join :
    (xs : List String)
    → All IsItem xs
    → All (Lacks comma) xs
    → stripped_items (split comma (join comma xs)) ≡ xs
unfolding stripped_items split join select strip lstrip rstrip
stripped-join [] h k = refl
stripped-join (x ∷ xs) h k =
    ap stripped_items (split-join comma x xs k) ∙ stripped_items-kept (x ∷ xs) h

-- The roles and scopes that the API reads from a header, the stripped items between its commas, are
-- those that it would read from the canonical text that was signed.
pub items-canonical :
    (value default : String)
    → stripped_items (split comma (canonical_csv (text value) default))
      ≡ stripped_items (split comma value)
unfolding canonical_csv csv_items
items-canonical value default =
    stripped-join (stripped_items (split comma value)) (stripped_items-IsItem (split comma value))
      (stripped_items-Lacks (split comma value) (split-Lacks comma value))
