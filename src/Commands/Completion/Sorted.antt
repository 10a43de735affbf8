-- ===== src/Commands/Completion/Sorted.antt =====
-- chatterc/commands/commands.go: the options of a line differ, begin with its last field and are
-- sorted.
use chatter.Base.{
  ℕ, true, false, ◌||◌, List, [], ◌∷◌, Option, Str, str_eq, has_prefix, length, all_nil, all_cons,
  ◌≡◌, refl, sym, subst, ap, ◌∙◌, inl, inr, Bool-cases, arith,
}
use chatter.Base.Result.{ok, >>=-eq-ok, ok-injective}
use chatter.Commands.Node.{Ptr, Heap}
use chatter.Commands.Matching.{Addr}
use chatter.Commands.Completion.{
  autocomplete_fields, contains, option_texts, str_lt, insert_sorted, sort_strings, last_field,
  get_autocomplete_options,
}
use chatter.Commands.Completion.Options.{
  Distinct, distinct_nil, distinct_cons, Begin, good, option_texts-Good,
}

-- Each string comes before the next by its bytes, so that no string comes twice.
pub data Ascending : List Str → Type 0 where
  ascending_nil : Ascending []
  ascending_one : {s : Str} → Ascending (s ∷ [])
  ascending_cons :
      {s t : Str} {l : List Str} → str_lt s t ≡ true → Ascending (t ∷ l) → Ascending (s ∷ t ∷ l)

-- Of two strings that differ, one comes before the other.
str_lt_total : (s t : Str) → str_lt t s ≡ false → str_eq t s ≡ false → str_lt s t ≡ true
unfolding str_lt str_eq
str_lt_total [] [] h e = absurd (grind (arith, e))
str_lt_total [] (b ∷ t) h e = refl
str_lt_total (a ∷ s) [] h e = absurd (grind (arith, h))
str_lt_total (a ∷ s) (b ∷ t) h e = ground (arith, str_lt_total s t)

contains-insert_sorted :
    (s x : Str) (l : List Str) → contains (insert_sorted s l) x ≡ (str_eq s x || contains l x)
unfolding insert_sorted contains
contains-insert_sorted s x [] = refl
contains-insert_sorted s x (t ∷ l) = ground (arith, contains-insert_sorted s x l)

contains-sort_strings : (x : Str) (l : List Str) → contains (sort_strings l) x ≡ contains l x
unfolding sort_strings contains
contains-sort_strings x [] = refl
contains-sort_strings x (s ∷ l) =
    contains-insert_sorted s x (sort_strings l) ∙ rw (contains-sort_strings x l) refl

insert_sorted-Ascending :
    (s : Str) (l : List Str) → contains l s ≡ false → Ascending l → Ascending (insert_sorted s l)
unfolding insert_sorted contains
insert_sorted-Ascending s [] c a = ascending_one
insert_sorted-Ascending s (t ∷ []) c a = elim (Bool-cases (str_lt t s)) [
  | inl y ↦ rw y (ascending_cons y ascending_one)
  | inr n ↦ rw n (ascending_cons (str_lt_total s t n (ground (arith, c))) ascending_one)
]
insert_sorted-Ascending s (t ∷ u ∷ l) c (ascending_cons h a) = elim (Bool-cases (str_lt t s)) [
  | inl y ↦
      let g = insert_sorted-Ascending s (u ∷ l) (ground (arith, c)) a in
      elim (Bool-cases (str_lt u s)) [
        | inl z ↦ rw (y, z) (ascending_cons h (rw z at g))
        | inr m ↦ rw (y, m) (ascending_cons y (rw m at g))
      ]
  | inr n ↦ rw n (ascending_cons (str_lt_total s t n (ground (arith, c))) (ascending_cons h a))
]

sort_strings-Ascending : {l : List Str} → Distinct l → Ascending (sort_strings l)
unfolding sort_strings
sort_strings-Ascending distinct_nil = ascending_nil
sort_strings-Ascending (distinct_cons {s} {l} c d) =
    insert_sorted-Ascending s (sort_strings l) (contains-sort_strings s l ∙ c)
      (sort_strings-Ascending d)

insert_sorted-Begin :
    (field s : Str) (l : List Str)
    → has_prefix field s ≡ true
    → Begin field l
    → Begin field (insert_sorted s l)
unfolding insert_sorted
insert_sorted-Begin field s [] p all_nil = all_cons p all_nil
insert_sorted-Begin field s (t ∷ l) p (all_cons q b) = elim (Bool-cases (str_lt t s)) [
  | inl y ↦ rw y (all_cons q (insert_sorted-Begin field s l p b))
  | inr n ↦ rw n (all_cons p (all_cons q b))
]

sort_strings-Begin : (field : Str) {l : List Str} → Begin field l → Begin field (sort_strings l)
unfolding sort_strings
sort_strings-Begin field all_nil = all_nil
sort_strings-Begin field (all_cons {x = s} {xs = l} p b) =
    insert_sorted-Begin field s (sort_strings l) p (sort_strings-Begin field b)

module _ (parse_addr : Str → Option Addr) (h : Heap) where
  -- Where GetAutocompleteOptions returns, its options are in strictly ascending order of their bytes, so
  -- none comes twice; each begins with the last field of the line; and the offset is that field's
  -- length.
  pub get_autocomplete_options-Ascending :
      (fuel : ℕ) (p : Ptr) (line : Str) {options : List Str} {offset : ℕ}
      → get_autocomplete_options parse_addr fuel h p line ≡ ok (options, offset)
      → Ascending options
        × ((field : Str) × (last_field (autocomplete_fields line) ≡ ok field)
            × Begin field options
            × (offset ≡ length field))
  unfolding get_autocomplete_options
  get_autocomplete_options-Ascending fuel p line e =
      let fs = autocomplete_fields line in
      let (os, a, q) = >>=-eq-ok (option_texts parse_addr fuel h p fs) _ e in
      let (field, b, r) = >>=-eq-ok (last_field fs) _ q in
      let k = ok-injective r in
      elim (option_texts-Good parse_addr h fuel p fs b a) [
        | good d g ↦ (
          subst Ascending (ap (λ p. p.0) k) (sort_strings-Ascending d),
          (
            field,
            b,
            subst (Begin field) (ap (λ p. p.0) k) (sort_strings-Begin field g),
            sym (ap (λ p. p.1) k),
          ),
        )
      ]
