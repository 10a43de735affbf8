-- ===== src/Client/Pager/Prompt.antt =====
-- chatterc/pager.go: the prompt writes no text and ends.
use chatter.Base.{
  ℕ, zero, suc, ◌<◌, ◌≤◌, List, [], ◌∷◌, ◌++◌, Option, none, some, ◌==◌, ◌&&◌, Str, length,
  append_assoc, append-nil, ◌≡◌, refl, sym, ap, ◌∙◌, inl, inr, Bool-cases, Option-cases,
  some-injective, some-ne-none, arith,
}
use chatter.Client.Pager.{
  Output, text, more, clear, Pager, emit, read_byte, read_two, Paged, goes, fails, on_escape,
  on_key, paginate, bytes, full, at_prompt,
}

-- The text that was written, without the prompts.
unfoldable pub texts : List Output → Str
texts [] = []
texts (text s ∷ os) = s ++ texts os
texts (more ∷ os) = texts os
texts (clear ∷ os) = texts os

pub texts-append : (os ps : List Output) → texts (os ++ ps) ≡ texts os ++ texts ps
unfolding texts
texts-append [] ps = refl
texts-append (text s ∷ os) ps = rw (texts-append os ps) (sym (append_assoc s (texts os) (texts ps)))
texts-append (more ∷ os) ps = texts-append os ps
texts-append (clear ∷ os) ps = texts-append os ps

-- A round of the prompt writes no text and leaves the buffer.
pub record Same (p q : Pager) : Type 0 where
  pub same_text : texts q.output ≡ texts p.output
  pub same_buf : q.buf ≡ p.buf

pub data Kept (p : Pager) : Paged → Type 0 where
  kept_goes : {q : Pager} → Same p q → Kept p (goes q)
  kept_fails : {q : Pager} → Same p q → q.should_page ≡ p.should_page → Kept p (fails q)

bytes-read_byte :
    (cs : List Str) {b : ℕ} {ds : List Str}
    → read_byte cs ≡ some (b, ds)
    → bytes cs ≡ suc (bytes ds)
unfolding read_byte
bytes-read_byte [] e = absurd (some-ne-none (sym e))
bytes-read_byte ([] ∷ cs) e = omega (arith, bytes-read_byte cs e)
bytes-read_byte ((x ∷ c) ∷ cs) e =
    omega (arith, ap (λ (r : ℕ × List Str). bytes r.1) (some-injective e))

bytes-read_two :
    (cs : List Str) {b c : ℕ} {ds : List Str} → read_two cs ≡ some (b, c, ds) → bytes ds ≤ bytes cs
unfolding read_two
bytes-read_two [] e = absurd (some-ne-none (sym e))
bytes-read_two ([] ∷ cs) e = omega (arith, bytes-read_two cs e)
bytes-read_two ((x ∷ []) ∷ cs) e =
    omega (arith, ap (λ (r : ℕ × ℕ × List Str). bytes r.2) (some-injective e))
bytes-read_two ((x ∷ y ∷ c) ∷ cs) e =
    omega (arith, ap (λ (r : ℕ × ℕ × List Str). bytes r.2) (some-injective e))

module _ (p0 : Pager) (again : Pager → Paged) (bound : ℕ)
    (next : (q : Pager)
      → Same p0 q
      → q.should_page ≡ p0.should_page
      → bytes q.input ≤ bound
      → Kept p0 (again q)) where
  on_escape-Kept :
      (r : Option (ℕ × ℕ × List Str)) (p : Pager)
      → read_two p.input ≡ r
      → Same p0 p
      → p.should_page ≡ p0.should_page
      → bytes p.input ≤ bound
      → Kept p0 (on_escape again r p)
  unfolding on_escape
  on_escape-Kept none p e s g l = kept_fails s g
  on_escape-Kept (some (b, c, cs)) p e s g l = elim (Bool-cases (b == b'[' && c == b'B')) [
    | inl y ↦ rw y (kept_goes (record { same_text = s.same_text; same_buf = s.same_buf }))
    | inr n ↦ rw n (
        next (record p { input = cs }) (record { same_text = s.same_text; same_buf = s.same_buf }) g
          (omega (arith, bytes-read_two p.input e, l)))
  ]

  on_key-Kept :
      (b : ℕ) (p : Pager)
      → Same p0 p
      → p.should_page ≡ p0.should_page
      → bytes p.input ≤ bound
      → Kept p0 (on_key again b p)
  unfolding on_key
  on_key-Kept b p s g l = elim (Bool-cases (b == b'q')) [
    | inl y ↦ rw y (kept_fails (record { same_text = s.same_text; same_buf = s.same_buf }) g)
    | inr n1 ↦ elim (Bool-cases (b == b' ')) [
      | inl y ↦ rw (n1, y) (kept_goes (record { same_text = s.same_text; same_buf = s.same_buf }))
      | inr n2 ↦ elim (Bool-cases (b == 13)) [
        | inl y ↦
            rw (n1, n2, y) (kept_goes (record { same_text = s.same_text; same_buf = s.same_buf }))
        | inr n3 ↦ elim (Bool-cases (b == b'j')) [
          | inl y ↦
              rw (n1, n2, n3, y)
                (kept_goes (record { same_text = s.same_text; same_buf = s.same_buf }))
          | inr n4 ↦ elim (Bool-cases (b == b'G')) [
            | inl y ↦
                rw (n1, n2, n3, n4, y)
                  (kept_goes (record { same_text = s.same_text; same_buf = s.same_buf }))
            | inr n5 ↦ elim (Bool-cases (b == 27)) [
              | inl y ↦ rw (n1, n2, n3, n4, n5, y) (on_escape-Kept (read_two p.input) p refl s g l)
              | inr n6 ↦ rw (n1, n2, n3, n4, n5, n6) (next p s g l)
            ]
          ]
        ]
      ]
    ]
  ]

-- Writing a prompt, and the spaces over it.
Same-prompt :
    {p q : Pager} (cs : List Str)
    → Same p q
    → Same p (emit clear (emit more (record q { input = cs })))
unfolding texts
Same-prompt {p} {q} cs s = record {
  same_text =
      texts-append (q.output ++ more ∷ []) (clear ∷ [])
      ∙ append-nil (texts (q.output ++ more ∷ []))
      ∙ texts-append q.output (more ∷ [])
      ∙ append-nil (texts q.output)
      ∙ s.same_text;
  same_buf = s.same_buf;
}

Same-more : {p q : Pager} → Same p q → Same p (emit more q)
unfolding texts
Same-more {p} {q} s = record {
  same_text = texts-append q.output (more ∷ []) ∙ append-nil (texts q.output) ∙ s.same_text;
  same_buf = s.same_buf;
}

module _ (fault : ℕ → Option ℕ) (sound : (n : ℕ) → fault n ≡ none) where
  -- Fuel above the bytes of the input is enough for the prompt.
  paginate-Kept :
      (p0 : Pager) (fuel : ℕ) (p : Pager)
      → Same p0 p
      → p.should_page ≡ p0.should_page
      → bytes p.input < fuel
      → Kept p0 (paginate fault fuel p)
  unfolding paginate
  paginate-Kept p0 zero p s g l = absurd (omega (arith, l))
  paginate-Kept p0 (suc fuel) p s g l = elim (Option-cases (read_byte p.input)) [
    | inl n ↦ rw (sound (length p.output), n, paginate) (kept_fails (Same-more s) g)
    | inr (r, e) ↦
        let shorter = bytes-read_byte p.input e in
        rw (sound (length p.output), e, sound (length (p.output ++ more ∷ [])), paginate)
          (on_key-Kept p0 (paginate fault fuel) (bytes r.1)
            (λ q t h b. paginate-Kept p0 fuel q t h (omega (arith, b, shorter, l))) r.0
            (emit clear (emit more (record p { input = r.1 }))) (Same-prompt r.1 s) g (omega arith))
  ]

  pub at_prompt-Kept : (height : ℕ) (p : Pager) → Kept p (at_prompt fault height p)
  at_prompt-Kept height p = elim (Bool-cases (full height p)) [
    | inl y ↦ rw y (
        paginate-Kept p (suc (bytes p.input)) p (record { same_text = refl; same_buf = refl }) refl
          (omega arith))
    | inr n ↦ rw n (kept_goes (record { same_text = refl; same_buf = refl }))
  ]
