-- ===== src/Client/Pager/Written.antt =====
-- chatterc/pager.go: the pager writes what it is given, in order and nothing twice.
use chatter.Base.{
  ℕ, zero, suc, ◌+◌, ◌-◌, ◌<◌, ◌≤◌, Bool, true, false, not, List, [], ◌∷◌, ◌++◌, Option, none, some,
  ltb, ltb→lt, ◌==◌, if◌then◌else◌, Str, length, length-append, append_assoc, append-nil, ◌≡◌, refl,
  sym, ap, subst, ◌∙◌, inl, inr, Bool-cases, arith,
}
use chatter.Client.Pager.{
  Output, text, Pager, emit, Paged, read_line, Wrote, wrote, failed, next_line, write_out,
  at_prompt, after_prompt, rounds, write,
}
use chatter.Client.Pager.Prompt.{texts, texts-append, Kept, kept_goes, kept_fails, at_prompt-Kept}

-- What the pager still has to write. Behind the answer `G` it writes through, and its buffer is dead.
abbrev pub unwritten : Pager → Str
unwritten p = if p.should_page then p.buf else []

-- What a write leaves where `n` bytes are wanted: the text that was written and what is still to be
-- written are the given text, and the count is of the text that was written behind `base` bytes.
data Delivers (all : Str) (base n : ℕ) : Wrote → Type 0 where
  delivers_all :
      {q : Pager} {k : ℕ}
      → texts q.output ++ unwritten q ≡ all
      → n ≤ k
      → base + k ≡ length (texts q.output)
      → Delivers all base n (wrote k q)
  delivers_some :
      {q : Pager} {k : ℕ}
      → texts q.output ++ unwritten q ≡ all
      → base + k ≡ length (texts q.output)
      → Delivers all base n (failed k q)

read_line-append : (s : Str) → (read_line s).0 ++ (read_line s).1 ≡ s
unfolding read_line
read_line-append [] = refl
read_line-append (b ∷ s) = elim (Bool-cases (b == 10)) [
  | inl y ↦ rw y refl
  | inr n ↦ rw n (ap (λ t. b ∷ t) (read_line-append s))
]

length-read_line : (s : Str) → 0 < length s → 0 < length (read_line s).0
unfolding read_line
length-read_line [] l = absurd (omega (arith, l))
length-read_line (b ∷ s) l = elim (Bool-cases (b == 10)) [
  | inl y ↦ rw y (omega arith)
  | inr n ↦ rw n (omega arith)
]

texts-snoc : (os : List Output) (s : Str) → texts (os ++ text s ∷ []) ≡ texts os ++ s
unfolding texts
texts-snoc os s = texts-append os (text s ∷ []) ∙ rw (append-nil s) refl

-- Writing the first line of the buffer.
abbrev out_line : Pager → Pager
out_line q = next_line (emit (text (read_line q.buf).0) (record q { buf = (read_line q.buf).1 }))

texts-out_line :
    (q : Pager) → texts (out_line q).output ++ (out_line q).buf ≡ texts q.output ++ q.buf
texts-out_line q = rw (texts-snoc q.output (read_line q.buf).0) (
    append_assoc (texts q.output) (read_line q.buf).0 (read_line q.buf).1
    ∙ rw (read_line-append q.buf) refl)

if_not : {A : Type 0} (x y : A) (b : Bool) → b ≡ true → (if not b then x else y) ≡ y
if_not x y b e = rw e refl

if_false : {A : Type 0} (x y : A) (b : Bool) → b ≡ false → (if b then x else y) ≡ y
if_false x y b e = rw e refl

if_shut : {A : Type 0} (x y : A) (b : Bool) → b ≡ false → (if not b then x else y) ≡ x
if_shut x y b e = rw e refl

unwritten-paging : (p : Pager) → p.should_page ≡ true → unwritten p ≡ p.buf
unwritten-paging p e = rw e refl

unwritten-through : (p : Pager) → p.should_page ≡ false → unwritten p ≡ []
unwritten-through p e = rw e refl

module _ (fault : ℕ → Option ℕ) (sound : (n : ℕ) → fault n ≡ none) where
  write_out_sound :
      (next : ℕ → Pager → Wrote) (s : Str) (written : ℕ) (p : Pager)
      → write_out fault next s written p ≡ next (written + length s) (emit (text s) p)
  unfolding write_out
  write_out_sound next s written p = rw (sound (length p.output), write_out) refl

module _ (fault : ℕ → Option ℕ) (sound : (n : ℕ) → fault n ≡ none) (all : Str) (base n height : ℕ)
    (long : base + n ≤ length all) where
  -- One round behind the prompt, with what the rounds that are left deliver.
  after_prompt-Delivers :
      (next : ℕ → Pager → Wrote) (written : ℕ) (p : Pager)
      → written < n
      → p.should_page ≡ true
      → texts p.output ++ p.buf ≡ all
      → base + written ≡ length (texts p.output)
      → ((k : ℕ) (q : Pager)
          → written < k
          → q.should_page ≡ true
          → texts q.output ++ q.buf ≡ all
          → base + k ≡ length (texts q.output)
          → Delivers all base n (next k q))
      → (r : Paged) → Kept p r
      → Delivers all base n (after_prompt fault next written r)
  unfolding after_prompt
  after_prompt-Delivers next written p w g t c f r (kept_fails {q} s h) =
      let page : q.should_page ≡ true = h ∙ g in
      delivers_some (rw (unwritten-paging q page, s.same_text, s.same_buf) t)
        (c ∙ ap length (sym s.same_text))
  after_prompt-Delivers next written p w g t c f r (kept_goes {q} s) =
      let t' : texts q.output ++ q.buf ≡ all = rw (s.same_text, s.same_buf) t in
      let c' : base + written ≡ length (texts q.output) = c ∙ ap length (sym s.same_text) in
      let total = ap length t' in
      elim (Bool-cases q.should_page) [
        | inr no_page ↦
            subst (Delivers all base n)
              (sym (
                if_shut _ _ q.should_page no_page
                ∙ write_out_sound fault sound wrote q.buf written q))
              (delivers_all
                (rw (unwritten-through (emit (text q.buf) q) no_page) (
                  append-nil (texts (q.output ++ text q.buf ∷ []))
                  ∙ texts-snoc q.output q.buf
                  ∙ t'))
                (omega (arith, length-append (texts q.output) q.buf, total, c', long))
                (rw (texts-snoc q.output q.buf)
                  (omega (arith, c', length-append (texts q.output) q.buf))))
        | inl page ↦
            subst (Delivers all base n)
              (sym (
                if_not _ _ q.should_page page
                ∙ write_out_sound fault sound (λ m t. next m (next_line t)) (read_line q.buf).0
                    written (record q { buf = (read_line q.buf).1 })))
              (f (written + length (read_line q.buf).0) (out_line q)
                (omega (
                  arith,
                  length-read_line q.buf
                      (omega (arith, length-append (texts q.output) q.buf, total, c', long, w)),
                ))
                page (texts-out_line q ∙ t')
                (rw (texts-snoc q.output (read_line q.buf).0)
                  (omega (arith, c', length-append (texts q.output) (read_line q.buf).0))))
      ]

  rounds-Delivers :
      (fuel written : ℕ) (p : Pager)
      → n - written < fuel
      → p.should_page ≡ true
      → texts p.output ++ p.buf ≡ all
      → base + written ≡ length (texts p.output)
      → Delivers all base n (rounds fault fuel height n written p)
  unfolding rounds
  rounds-Delivers zero written p l g t c = absurd (omega (arith, l))
  rounds-Delivers (suc fuel) written p l g t c = elim (Bool-cases (ltb written n)) [
    | inr done ↦
        rw (done, rounds) (delivers_all (rw (unwritten-paging p g) t) (ground (arith, done)) c)
    | inl more' ↦
        rw (more', rounds)
          (after_prompt-Delivers (rounds fault fuel height n) written p (ground (arith, more')) g t
            c
            (λ k q w g' t' c'.
              rounds-Delivers fuel k q (omega (arith, w, l, ltb→lt written n more')) g' t' c')
            (at_prompt fault height p) (at_prompt-Kept fault sound height p))
  ]

-- What a write makes of a pager that has not been stopped.
pub data Written (p : Pager) (b : Str) : Wrote → Type 0 where
  written_all :
      {q : Pager} {k : ℕ}
      → texts q.output ++ unwritten q ≡ (texts p.output ++ unwritten p) ++ b
      → length b ≤ k
      → length (texts p.output) + k ≡ length (texts q.output)
      → Written p b (wrote k q)
  written_some :
      {q : Pager} {k : ℕ}
      → texts q.output ++ unwritten q ≡ (texts p.output ++ unwritten p) ++ b
      → length (texts p.output) + k ≡ length (texts q.output)
      → Written p b (failed k q)

Written-Delivers :
    (p : Pager) (b : Str) {r : Wrote}
    → Delivers ((texts p.output ++ unwritten p) ++ b) (length (texts p.output)) (length b) r
    → Written p b r
Written-Delivers p b (delivers_all t l c) = written_all t l c
Written-Delivers p b (delivers_some t c) = written_some t c

-- On a terminal whose size is known and whose writes do not fail, Write on a pager that was not stopped
-- ends, and nothing is lost, repeated or out of order: the text written and the text kept for later are the old ones and the new
-- bytes behind them, the count is of the text written by the call, and it is at least that of the
-- bytes given unless an error is returned.
pub write-Written :
    (fault : ℕ → Option ℕ)
    → ((n : ℕ) → fault n ≡ none)
    → (height : ℕ) (b : Str) (p : Pager) → p.stopped ≡ false
    → Written p b (write fault (some height) b p)
unfolding write
write-Written fault sound height b p s = elim (Bool-cases p.should_page) [
  | inr no_page ↦
      subst (Written p b)
        (sym (if_shut _ _ p.should_page no_page ∙ write_out_sound fault sound wrote b 0 p))
        (written_all
          (rw (unwritten-through p no_page, texts-snoc p.output b)
            (append-nil (texts p.output ++ b) ∙ rw (append-nil (texts p.output)) refl))
          (omega arith)
          (rw (texts-snoc p.output b) (omega (arith, length-append (texts p.output) b))))
  | inl page ↦ subst (Written p b) (sym (if_not _ _ p.should_page page)) (
      subst (Written p b) (sym (if_false _ _ p.stopped s)) (
        Written-Delivers p b (
          rounds-Delivers fault sound ((texts p.output ++ unwritten p) ++ b)
            (length (texts p.output)) (length b) height
            (omega (
              arith,
              length-append (texts p.output ++ unwritten p) b,
              length-append (texts p.output) (unwritten p),
            ))
            (suc (length b)) 0 (record p { buf = p.buf ++ b }) (omega arith) page
            (rw (unwritten-paging p page) (sym (append_assoc (texts p.output) p.buf b)))
            (omega arith))))
]
