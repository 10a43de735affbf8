-- ===== src/Client/Pager.antt =====
-- chatterc/pager.go: the pager. `fault` says what the writes on the terminal come to, by how many there were
-- before: `none` is a complete write, and `some k` an error behind `k` bytes.
pub mod Prompt
pub mod Written
use chatter.Base.{
  ℕ, zero, suc, ◌+◌, ◌-◌, ◌<◌, Bool, true, false, not, List, [], ◌∷◌, ◌++◌, Option, none, some, ltb,
  ◌==◌, ◌&&◌, if◌then◌else◌, Str, length, take,
}
use chatter.Base.Int.{ℤ, pos, negsuc, ◌+ℤ◌, ◌-ℤ◌, ltb_ℤ, sub_ℕ}

-- What is written on the terminal: text, the prompt `--More--`, or the spaces over it.
pub data Output : Type 0 where
  text : Str → Output
  more clear : Output

-- The pager. `input` holds what each read of the keyboard still to come delivers; `output` is what was
-- written so far, in order.
pub record Pager : Type 0 where
  pub input : List Str
  pub output : List Output
  pub buf : Str
  pub should_page : Bool
  pub line : ℤ
  pub stopped : Bool

-- `newPager(r, w)`, where `is_terminal` is what `term.IsTerminal` says.
abbrev pub new_pager : Bool → List Str → Pager
new_pager is_terminal input = record {
  input = input;
  output = [];
  buf = [];
  should_page = is_terminal;
  line = pos 0;
  stopped = false;
}

abbrev pub emit : Output → Pager → Pager
emit o p = record p { output = p.output ++ o ∷ [] }

-- `p.r.ReadByte()`; `none` is the end of the input.
unfoldable pub read_byte : List Str → Option (ℕ × List Str)
read_byte [] = none
read_byte ([] ∷ cs) = read_byte cs
read_byte ((b ∷ c) ∷ cs) = some (b, c ∷ cs)

-- `p.r.Read(b[:])` for two bytes, which takes one where one read delivered no more; the other is 0.
unfoldable pub read_two : List Str → Option (ℕ × ℕ × List Str)
read_two [] = none
read_two ([] ∷ cs) = read_two cs
read_two ((b ∷ []) ∷ cs) = some (b, 0, cs)
read_two ((b ∷ c ∷ d) ∷ cs) = some (b, c, d ∷ cs)

-- What a call comes to: it goes on, or returns an error. `no_fuel` is the end of the fuel.
pub data Paged : Type 0 where
  goes fails : Pager → Paged
  no_fuel : Paged

-- `line--`
abbrev pub line_up : Pager → Pager
line_up p = record p { line = p.line -ℤ pos 1 }

-- The two bytes behind an escape, and the call for another round of the loop.
unfoldable pub on_escape : (Pager → Paged) → Option (ℕ × ℕ × List Str) → Pager → Paged
on_escape again none p = fails p
on_escape again (some (b, c, cs)) p =
    let p' = record p { input = cs } in
    if b == b'[' && c == b'B' then goes (line_up p') else again p'

-- The switch on the key.
unfoldable pub on_key : (Pager → Paged) → ℕ → Pager → Paged
unfolding on_escape read_two
on_key again b p =
    if b == b'q'
    then fails (record p { stopped = true })
    else if b == b' '
    then goes (record p { line = pos 0 })
    else if b == 13
    then goes (line_up p)
    else if b == b'j'
    then goes (line_up p)
    else if b == b'G'
    then goes (record p { should_page = false })
    else if b == 27
    then on_escape again (read_two p.input) p
    else again p

-- `p.paginate()`: each round reads a byte, so that fuel above the bytes of the input is enough.
-- An error of a write is returned; what it wrote of the prompt is not kept.
unfoldable pub paginate : (ℕ → Option ℕ) → ℕ → Pager → Paged
unfolding on_key read_byte
paginate fault zero p = no_fuel
paginate fault (suc fuel) p = elim (fault (length p.output)) [
  | some k ↦ fails p
  | none ↦ elim (read_byte p.input) [
    | none ↦ fails (emit more p)
    | some r ↦ elim (fault (length (p.output ++ more ∷ []))) [
      | some k ↦ fails (emit more (record p { input = r.1 }))
      | none ↦ on_key (paginate fault fuel) r.0 (emit clear (emit more (record p { input = r.1 })))
    ]
  ]
]

abbrev pub bytes : List Str → ℕ
bytes [] = 0
bytes (c ∷ cs) = length c + bytes cs

-- `p.buf.ReadBytes('\n')`: the line, and what stays in the buffer.
unfoldable pub read_line : Str → Str × Str
read_line [] = ([], [])
read_line (b ∷ s) = if b == 10 then (b ∷ [], s) else (b ∷ (read_line s).0, (read_line s).1)

-- What `Write` returns: the count, and whether there is an error.
pub data Wrote : Type 0 where
  wrote failed : ℕ → Pager → Wrote
  out_of_fuel : Wrote

abbrev pub next_line : Pager → Pager
next_line p = record p { line = p.line +ℤ pos 1 }

-- `p.w.Write(s)` behind `written` bytes, and what follows where the write is complete.
unfoldable pub write_out : (ℕ → Option ℕ) → (ℕ → Pager → Wrote) → Str → ℕ → Pager → Wrote
write_out fault next s written p = elim (fault (length p.output)) [
  | none ↦ next (written + length s) (emit (text s) p)
  | some k ↦ failed (written + k) (emit (text (take k s)) p)
]

-- Is the screen full, `p.line >= height-1`?
abbrev pub full : ℕ → Pager → Bool
full height p = not (ltb_ℤ p.line (sub_ℕ height 1))

abbrev pub at_prompt : (ℕ → Option ℕ) → ℕ → Pager → Paged
at_prompt fault height p = if full height p then paginate fault (suc (bytes p.input)) p else goes p

-- The rest of a round behind the prompt, with the call for the rounds that are left. Where the answer
-- was `G`, the buffer is written, and keeps what it holds. `ReadBytes` of a buffer returns no error but
-- io.EOF, and takes the line out of the buffer before it is written.
unfoldable pub after_prompt : (ℕ → Option ℕ) → (ℕ → Pager → Wrote) → ℕ → Paged → Wrote
unfolding read_line write_out
after_prompt fault next written no_fuel = out_of_fuel
after_prompt fault next written (fails p) = failed written p
after_prompt fault next written (goes p) =
    if not p.should_page
    then write_out fault wrote p.buf written p
    else write_out fault (λ n q. next n (next_line q)) (read_line p.buf).0 written
        (record p { buf = (read_line p.buf).1 })

-- `for written < len(b)`
unfoldable pub rounds : (ℕ → Option ℕ) → ℕ → ℕ → ℕ → ℕ → Pager → Wrote
unfolding after_prompt paginate
rounds fault zero height n written p = out_of_fuel
rounds fault (suc fuel) height n written p = elim (ltb written n) [
  | false ↦ wrote written p
  | true ↦ after_prompt fault (rounds fault fuel height n) written (at_prompt fault height p)
]

-- `p.Write(b)`; `size` is the height that `term.GetSize` gives, or `none` where it fails.
unfoldable pub write : (ℕ → Option ℕ) → Option ℕ → Str → Pager → Wrote
unfolding rounds write_out
write fault size b p =
    if not p.should_page
    then write_out fault wrote b 0 p
    else if p.stopped
    then failed 0 p
    else elim size [
      | none ↦ write_out fault wrote b 0 p
      | some height ↦
          rounds fault (suc (length b)) height (length b) 0 (record p { buf = p.buf ++ b })
    ]
