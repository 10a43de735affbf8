-- ===== src/Sync/Queue.antt =====
-- sync/queue.go: a queue kept in two channels of capacity 1, one for a slice that is not empty and
-- one for the token that says that there is none.
use chatter.Base.{Bool, true, false, List, [], ◌∷◌, ◌++◌, Option, none, some, ◌≡◌, refl}

-- What the channels hold.
pub record Queue (A : Type 0) : Type 0 where
  pub items : Option (List A)
  pub empty : Bool

-- What a call does: it returns, it waits for ever on its channels, or it panics.
pub data Outcome (B : Type 0) : Type 0 where
  returns : B → Outcome B
  blocks panics : Outcome B

module _ {A : Type 0} where
  unfoldable pub new_queue : Queue A
  new_queue = record { items = none; empty = true }

  -- The select of `Put` on the two channels. Where both are ready the code takes either one, and this
  -- takes the slice; `Holds` excludes such a state.
  abbrev put_from : Option (List A) → Bool → A → Outcome (Queue A)
  put_from (some items) e x = returns (record { items = some (items ++ x ∷ []); empty = e })
  put_from none true x = returns (record { items = some (x ∷ []); empty = false })
  put_from none false x = blocks

  -- `q.Put(item)`
  unfoldable pub put : Queue A → A → Outcome (Queue A)
  put q x = put_from q.items q.empty x

  abbrev get_from : Option (List A) → Bool → Outcome (A × Queue A)
  get_from none e = blocks
  get_from (some []) e = panics
  get_from (some (x ∷ [])) true = blocks
  get_from (some (x ∷ [])) false = returns (x, record { items = none; empty = true })
  get_from (some (x ∷ y ∷ l)) e = returns (x, record { items = some (y ∷ l); empty = e })

  -- `q.Get(ctx)` while the context is not done.
  unfoldable pub get : Queue A → Outcome (A × Queue A)
  get q = get_from q.items q.empty

  -- The queue holds this list: the token is there exactly if the list is empty.
  pub data Holds : Queue A → List A → Type 0 where
    holds_none : {q : Queue A} → q.items ≡ none → q.empty ≡ true → Holds q []
    holds_some :
        {q : Queue A} {x : A} {l : List A}
        → q.items ≡ some (x ∷ l)
        → q.empty ≡ false
        → Holds q (x ∷ l)

  pub new_queue-Holds : Holds new_queue []
  unfolding new_queue
  new_queue-Holds = holds_none refl refl

  -- A queue that holds a list takes an item at its end, and never blocks.
  pub put-Holds :
      {q : Queue A} {l : List A} (x : A)
      → Holds q l
      → (q' : Queue A) × (put q x ≡ returns q') × Holds q' (l ++ x ∷ [])
  unfolding put
  put-Holds x (holds_none i e) = (_, rw (i, e), holds_some refl refl)
  put-Holds x (holds_some i e) = (_, rw (i, e), holds_some refl refl)

  -- A queue that holds a list gives its first item; it blocks exactly if there is none, and never
  -- panics.
  pub get-Holds-cons :
      {q : Queue A} {x : A} {l : List A}
      → Holds q (x ∷ l)
      → (q' : Queue A) × (get q ≡ returns (x, q')) × Holds q' l
  unfolding get
  get-Holds-cons {l = []} (holds_some i e) = (_, rw (i, e), holds_none refl refl)
  get-Holds-cons {l = y ∷ l} (holds_some i e) = (_, rw i, holds_some refl e)

  pub get-Holds-nil : {q : Queue A} → Holds q [] → get q ≡ blocks
  unfolding get
  get-Holds-nil (holds_none i e) = rw i
