-- ===== src/Client/Tab.antt =====
-- chatterc/cli.go, `autocompleteWithTab`: the tab key.
pub mod Extends
use chatter.Base.{
  ℕ, zero, suc, ◌-◌, Bool, true, false, ◌&&◌, not, List, [], ◌∷◌, ◌++◌, Option, none, some, leb,
  ◌==◌, if◌then◌else◌, Str, codes, length, take, drop, has_prefix,
}
use chatter.Base.Result.{Result, ok, err, ◌>>=◌}
use chatter.Commands.Node.{Failure, panic, out_of_fuel, Ptr, Heap}
use chatter.Commands.Matching.{Addr}
use chatter.Commands.Completion.{get_autocomplete_options}
use chatter.Client.Layout.{wrap}
use chatter.Client.Prefix.{common_prefix_len}

-- What is written on the terminal: a bell, the prompt with the line, a message on the error, a line of
-- options.
pub data Written : Type 0 where
  bell : Written
  prompt_line : Str → Written
  message : Failure → Written
  options_line : Str → Written

-- What the callback leaves: what it wrote, and the new line with the new position, or `ok == false`.
pub record Reply : Type 0 where
  pub output : List Written
  pub change : Option (Str × ℕ)

-- `s[i:j]`, which panics where the bounds are not in order or in range.
unfoldable pub slice : Str → ℕ → ℕ → Result Failure Str
slice s i j = if leb i j && leb j (length s) then ok (take (j - i) (drop i s)) else err panic

abbrev pub options_lines : List Str → List Written
options_lines [] = []
options_lines (l ∷ ls) = options_line l ∷ options_lines ls

-- The option is put in place of what it completes; a space follows it if none is there.
unfoldable pub complete_one : Str → Str → Str → ℕ → Result Failure Reply
unfolding slice has_prefix
complete_one prefix rest option offset = do
  ending ← slice option offset (length option)
  let new : Str = prefix ++ (ending ++ (if has_prefix (codes " ") rest then [] else codes " "))
  ok (record { output = []; change = some (new ++ rest, length new) })

-- What the options have in common is put there.
unfoldable pub complete_common : Str → Str → List Str → Str → ℕ → Result Failure Reply
unfolding slice common_prefix_len
complete_common prefix rest options option offset = do
  ending ← slice option offset (common_prefix_len options)
  let new : Str = prefix ++ ending
  ok (record { output = bell ∷ []; change = some (new ++ rest, length new) })

unfoldable pub list_options : Option ℕ → Str → List Str → Result Failure Reply
unfolding wrap
list_options size line options = do
  ls ← wrap size 0 options
  ok (record { output = prompt_line line ∷ options_lines ls; change = none })

-- The chain on the number of the options. `again` tells whether the last key was a tab, too.
unfoldable pub with_options :
    Option ℕ → Bool → Str → Str → Str → List Str → ℕ → Result Failure Reply
unfolding complete_one complete_common list_options
with_options size again line prefix rest [] offset =
    ok (record { output = bell ∷ []; change = none })
with_options size again line prefix rest (o ∷ []) offset = complete_one prefix rest o offset
with_options size again line prefix rest (o ∷ p ∷ os) offset =
    if not again
    then complete_common prefix rest (o ∷ p ∷ os) o offset
    else list_options size line (o ∷ p ∷ os)

-- An error that the call returned, which is shown; a panic is none.
abbrev pub on_error : Str → Failure → Result Failure Reply
on_error line panic = err panic
on_error line out_of_fuel = err out_of_fuel
on_error line e = ok (record { output = prompt_line line ∷ message e ∷ []; change = none })

abbrev pub on_options :
    Option ℕ → Bool → Str → Str → Str → Result Failure (List Str × ℕ) → Result Failure Reply
on_options size again line prefix rest (err e) = on_error line e
on_options size again line prefix rest (ok (options, offset)) =
    with_options size again line prefix rest options offset

module _ (parse_addr : Str → Option Addr) where
  -- `cli.autocompleteWithTab(w, line, pos)`, at the root of the commands, on a terminal of the size.
  unfoldable pub autocomplete_with_tab :
      ℕ → Heap → Ptr → Option ℕ → Bool → Str → ℕ → Result Failure Reply
  unfolding slice with_options get_autocomplete_options
  autocomplete_with_tab fuel h root size again line pos = do
    prefix ← slice line 0 pos
    rest ← slice line pos (length line)
    on_options size again line prefix rest (get_autocomplete_options parse_addr fuel h root prefix)
