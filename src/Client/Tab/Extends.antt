-- ===== src/Client/Tab/Extends.antt =====
-- chatterc/cli.go, `autocompleteWithTab`: the slices are in range, and the line is extended.
use chatter.Base.{
  ℕ, zero, suc, ◌-◌, ◌≤◌, Bool, true, false, List, [], ◌∷◌, ◌++◌, Option, none, some, leb,
  if◌then◌else◌, Str, codes, length, take, drop, has_prefix, append-nil, All, all_nil, all_cons,
  ◌≡◌, refl, sym, ap, ◌∙◌, ◌⊎◌, inl, inr, Bool-cases, arith,
}
use chatter.Base.Result.{ok}
use chatter.Commands.Node.{Ptr, Heap}
use chatter.Commands.Matching.{Addr}
use chatter.Commands.Completion.{get_autocomplete_options, last_field, autocomplete_fields}
use chatter.Commands.Completion.Options.{Begin}
use chatter.Commands.Completion.Sorted.{get_autocomplete_options-Ascending}
use chatter.Client.Layout.{wrap}
use chatter.Client.Layout.Columns.{wrap-Columns}
use chatter.Client.Prefix.{common_prefix_len, common_prefix_len-LongestCommon, has_prefix-length}
use chatter.Client.Tab.{
  Written, bell, Reply, slice, complete_one, complete_common, list_options, options_lines,
  with_options, prompt_line, autocomplete_with_tab,
}

-- The line stays, or a text is put at the cursor, which moves behind it: what all options have behind
-- the field, and at most a space.
pub data Extends (options : List Str) (field prefix rest : Str) : Reply → Type 0 where
  keeps : {r : Reply} → r.change ≡ none → Extends options field prefix rest r
  inserts :
      {r : Reply} (ending extra : Str)
      → All (λ (o : Str). has_prefix (field ++ ending) o ≡ true) options
      → (extra ≡ []) ⊎ (extra ≡ codes " ")
      → r.change
        ≡ some ((prefix ++ (ending ++ extra)) ++ rest, length (prefix ++ (ending ++ extra)))
      → Extends options field prefix rest r

slice-ok_range :
    (s : Str) (i j : ℕ) → i ≤ j → j ≤ length s → slice s i j ≡ ok (take (j - i) (drop i s))
unfolding slice
slice-ok_range s i j a b =
    let l : leb i j ≡ true = ground (arith, a) in
    let m : leb j (length s) ≡ true = ground (arith, b) in rw (l, m) refl

take-length : (s : Str) → take (length s) s ≡ s
take-length [] = refl
take-length (a ∷ s) = ap (λ t. a ∷ t) (take-length s)

length-drop : (n : ℕ) (s : Str) → length (drop n s) ≡ length s - n
length-drop zero s = omega arith
length-drop (suc n) [] = omega arith
length-drop (suc n) (a ∷ s) = omega (arith, length-drop n s)

slice-end : (s : Str) (i : ℕ) → i ≤ length s → slice s i (length s) ≡ ok (drop i s)
slice-end s i l =
    slice-ok_range s i (length s) l (omega arith)
    ∙ rw (sym (length-drop i s), take-length (drop i s)) refl

slice-begin : (s : Str) (j : ℕ) → j ≤ length s → slice s 0 j ≡ ok (take j s)
slice-begin s j l =
    let e : j - 0 ≡ j = omega arith in slice-ok_range s 0 j (omega arith) l ∙ rw e refl

has_prefix_refl : (s : Str) → has_prefix s s ≡ true
unfolding has_prefix
has_prefix_refl [] = refl
has_prefix_refl (a ∷ s) = ground (arith, has_prefix_refl s)

-- What a string has behind a field with which it begins, up to some place.
field-append :
    (field o : Str) (n : ℕ)
    → has_prefix field o ≡ true
    → length field ≤ n
    → field ++ take (n - length field) (drop (length field) o) ≡ take n o
unfolding has_prefix
field-append [] o n h l = let e : n - 0 ≡ n = omega arith in rw e refl
field-append (a ∷ f) [] n h l = absurd (grind (arith, h))
field-append (a ∷ f) (b ∷ o) zero h l = absurd (omega (arith, l))
field-append (a ∷ f) (b ∷ o) (suc n) h l =
    let e : suc n - suc (length f) ≡ n - length f = omega arith in
    let same : a ≡ b = ground (arith, h) in
    let more = field-append f o n (ground (arith, h)) (omega (arith, l)) in rw (e, more, same) refl

abbrev put : List Written → Str → Str → Str → Reply
put out prefix t rest = record {
  output = out;
  change = some ((prefix ++ t) ++ rest, length (prefix ++ t));
}

length-take_le : (n : ℕ) (s : Str) → length (take n s) ≤ length s
length-take_le zero s = omega arith
length-take_le (suc n) [] = omega arith
length-take_le (suc n) (a ∷ s) = omega (arith, length-take_le n s)

-- The two bounds of the slice of an option.
option-Extends :
    (prefix rest field o : Str)
    → has_prefix field o ≡ true
    → (reply : Reply) × (complete_one prefix rest o (length field) ≡ ok reply)
      × Extends (o ∷ []) field prefix rest reply
unfolding complete_one
option-Extends prefix rest field o h =
    let l = has_prefix-length field o h in
    let ending = drop (length field) o in
    let extra : Str = if has_prefix (codes " ") rest then [] else codes " " in
    let all : field ++ ending ≡ o =
      rw (sym (take-length (drop (length field) o)), length-drop (length field) o)
        (field-append field o (length o) h l ∙ take-length o) in
    (
      put [] prefix (ending ++ extra) rest,
      rw (slice-end o (length field) l) refl,
      inserts ending extra (all_cons (rw all (has_prefix_refl o)) all_nil)
          (elim (Bool-cases (has_prefix (codes " ") rest)) [
            | inl y ↦ inl (rw y refl)
            | inr n ↦ inr (rw n refl)
          ])
          refl,
    )

common-Extends :
    (prefix rest field o : Str) (os : List Str)
    → Begin field (o ∷ os)
    → (reply : Reply) × (complete_common prefix rest (o ∷ os) o (length field) ≡ ok reply)
      × Extends (o ∷ os) field prefix rest reply
unfolding complete_common
common-Extends prefix rest field o os (all_cons h b) =
    let n = common_prefix_len (o ∷ os) in
    let (c, e) = common_prefix_len-LongestCommon o os in
    let low : length field ≤ n = rw e at (c.longest field (all_cons h b)) in
    let high : n ≤ length o = omega (arith, e, length-take_le n o) in
    let ending = take (n - length field) (drop (length field) o) in
    let same : field ++ ending ≡ take n o = field-append field o n h low in
    (
      put (bell ∷ []) prefix ending rest,
      rw (slice-ok_range o (length field) n low high) refl,
      inserts ending [] (rw same c.common) (inl refl) (rw (append-nil ending) refl),
    )

list_options-Extends :
    (size : Option ℕ) (line prefix rest field : Str) (options : List Str)
    → (reply : Reply) × (list_options size line options ≡ ok reply)
      × Extends options field prefix rest reply
unfolding list_options wrap
list_options-Extends none line prefix rest field options =
    (record { output = prompt_line line ∷ options_lines options; change = none }, refl, keeps refl)
list_options-Extends (some width) line prefix rest field options =
    let (ls, e, _) = wrap-Columns width 0 options (omega arith) in
    (
      record { output = prompt_line line ∷ options_lines ls; change = none },
      rw (e, list_options) refl,
      keeps refl,
    )

with_options-Extends :
    (size : Option ℕ) (again : Bool) (line prefix rest field : Str) (options : List Str)
    → Begin field options
    → (reply : Reply) × (with_options size again line prefix rest options (length field) ≡ ok reply)
      × Extends options field prefix rest reply
unfolding with_options
with_options-Extends size again line prefix rest field [] b =
    (record { output = bell ∷ []; change = none }, refl, keeps refl)
with_options-Extends size again line prefix rest field (o ∷ []) (all_cons h b) =
    option-Extends prefix rest field o h
with_options-Extends size true line prefix rest field (o ∷ p ∷ os) b =
    list_options-Extends size line prefix rest field (o ∷ p ∷ os)
with_options-Extends size false line prefix rest field (o ∷ p ∷ os) b =
    common-Extends prefix rest field o (p ∷ os) b

-- Where GetAutocompleteOptions returns options for the line up to the cursor, and the cursor is in the
-- line, the tab key does not panic: every slice is in range, on a terminal of whatever size. The line
-- stays, or a text is put at the cursor, which moves behind it: what all options have behind the last
-- field, and at most a space.
pub autocomplete_with_tab-Extends :
    (parse_addr : Str → Option Addr) (fuel : ℕ) (h : Heap) (root : Ptr) (size : Option ℕ)
    (again : Bool) (line : Str) (pos : ℕ) {options : List Str} {offset : ℕ}
    → pos ≤ length line
    → get_autocomplete_options parse_addr fuel h root (take pos line) ≡ ok (options, offset)
    → (reply : Reply) × (field : Str) × (autocomplete_with_tab parse_addr fuel h root size again
          line pos
        ≡ ok reply)
      × (last_field (autocomplete_fields (take pos line)) ≡ ok field)
      × Extends options field (take pos line) (drop pos line) reply
unfolding autocomplete_with_tab
autocomplete_with_tab-Extends parse_addr fuel h root size again line pos {options} {offset} l e =
    let (a, (field, f, b, o)) =
      get_autocomplete_options-Ascending parse_addr h fuel root (take pos line) e in
    let (reply, r, x) =
      with_options-Extends size again line (take pos line) (drop pos line) field options b in
    (
      reply,
      field,
      rw (slice-begin line pos l, slice-end line pos l, e, o, autocomplete_with_tab) r,
      f,
      x,
    )
