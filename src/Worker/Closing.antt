-- ===== src/Worker/Closing.antt =====
-- The last entry of the evidence of a run (core/crates/worker/src/deliver.rs).
use aite.Base.{
  if◌then◌else◌, get_last?, String, ◌≡◌, refl, Bool, true, false, some, List, [], ◌∷◌, ◌++◌,
}
use aite.Base.Exec.{Result, err, ok}
use aite.Contracts.Evidence.{EvidenceKind, Members}
use aite.Contracts.Protocol.{CardStatus}
use aite.Contracts.Session.{Task}
use aite.Control.Plane.{Entry, World, append_evidence}
use aite.Worker.Desk.{
  Desk, Ports, Run, RunError, act, acted, followed, reads, record_event, ◌>>=◌, ◌>>◌,
}
use aite.Worker.Finish.{cancel, deliver, end_with, fail}
use aite.Worker.Spares.{Spares, Spares-reads, Spares-then, finish_run-Spares}

unfoldable pub is_closing : EvidenceKind → Bool
is_closing EvidenceKind.delivered = true
is_closing EvidenceKind.failed = true
is_closing EvidenceKind.cancelled = true
is_closing _ = false

abbrev pub IsClosed : World → Type 0
IsClosed w = (e : Entry) × ((get_last? w.entries ≡ some e) × (is_closing e.kind ≡ true))

get_last-append : (xs : List Entry) (e : Entry) → get_last? (xs ++ e ∷ []) ≡ some e
get_last-append [] e = refl
get_last-append (x ∷ []) e = refl
get_last-append (x ∷ y ∷ xs) e = get_last-append (y ∷ xs) e

-- What the answer of `m` says of the world behind it.
abbrev pub Answered : {A : Type 0} → (A → World → Type 0) → Result RunError A × Desk → Type 0
Answered Q (ok a, d) = Q a d.world
Answered Q (err e, d) = Unit

pub record Yields {A : Type 0} (Q : A → World → Type 0) (m : Run A) : Type 0 where
  pub at : (d : Desk) → Answered Q (m d)

module _ {A B : Type 0} where
  -- Where the first part's answer matters.
  followed_chain :
      (Q : B → World → Type 0) (R : A → World → Type 0) (r : Result RunError A × Desk)
      (f : A → Run B)
      → Answered R r
      → ((a : A) (d : Desk) → R a d.world → Answered Q (f a d))
      → Answered Q (followed r f)
  followed_chain Q R (ok a, d) f h k = k a d h
  followed_chain Q R (err e, d) f h k = tt

module _ {A B : Type 0} {Q : B → World → Type 0} where
  followed_lem :
      (r : Result RunError A × Desk) (f : A → Run B)
      → ((a : A) → Yields Q (f a))
      → Answered Q (followed r f)
  followed_lem (ok a, d) f h = (h a).at d
  followed_lem (err e, d) f h = tt

  pub Yields-bind : (m : Run A) (f : A → Run B) → ((a : A) → Yields Q (f a)) → Yields Q (m >>= f)
  unfolding ◌>>=◌
  Yields-bind m f h = record { at = λ d. followed_lem (m d) f h }

  pub Yields-then : (m : Run A) (n : Run B) → Yields Q n → Yields Q (m >> n)
  unfolding ◌>>◌
  Yields-then m n h = record { at = λ d. followed_lem (m d) (λ _. n) (λ _. h) }

  pub Yields-chain :
      (R : A → World → Type 0) (m : Run A) (f : A → Run B)
      → Yields R m
      → ((a : A) (d : Desk) → R a d.world → Answered Q (f a d))
      → Yields Q (m >>= f)
  unfolding ◌>>=◌
  Yields-chain R m f h k = record { at = λ d. followed_chain Q R (m d) f (h.at d) k }

module _ {A : Type 0} {Q : A → World → Type 0} where
  pub Yields-if : (b : Bool) (m n : Run A) → Yields Q m → Yields Q n → Yields Q (if b then m else n)
  Yields-if true m n h k = h
  Yields-if false m n h k = k

module _ {A : Type 0} where
  spared_lem :
      (r : Result RunError A × Desk) (xs : List Entry) (e : Entry)
      → r.1.world.entries ≡ xs
      → get_last? xs ≡ some e
      → is_closing e.kind ≡ true
      → Answered (λ _. IsClosed) r
  spared_lem (ok a, d) xs e h i j = (e, (rw h i, j))
  spared_lem (err x, d) xs e h i j = tt

  -- The last entry, and what comes behind it.
  closing_lem :
      (faults : List Bool) (id : String) (kind : EvidenceKind) (payload : Members) (rest : Run A)
      → (d : Desk) → is_closing kind ≡ true
      → Spares rest
      → Answered
          (λ _. IsClosed)
          (followed
            (acted d (append_evidence id kind payload (record d.world { faults = faults })))
            (λ _. rest))
  unfolding append_evidence
  closing_lem [] id kind payload rest d final h =
      spared_lem (rest _) _ _ (h.at _) (get_last-append d.world.entries _) final
  closing_lem (true ∷ faults) id kind payload rest d final h = tt
  closing_lem (false ∷ faults) id kind payload rest d final h =
      spared_lem (rest _) _ _ (h.at _) (get_last-append d.world.entries _) final

  record_event-Closes :
      (kind : EvidenceKind) (payload : Members) (rest : Run A)
      → is_closing kind ≡ true
      → Spares rest
      → Yields (λ _. IsClosed) (record_event kind payload >> rest)
  unfolding record_event ◌>>◌ ◌>>=◌ reads act
  record_event-Closes kind payload rest final h = record {
    at = λ d. closing_lem d.world.faults d.ctx.task.id kind payload rest d final h;
  }

module _ (p : Ports) where
  abbrev Closes : Run Task → Type 0
  Closes m = Yields (λ _. IsClosed) m

  end_with-Closes :
      (status : CardStatus) (kind : EvidenceKind) (payload : Task → Members)
      → is_closing kind ≡ true
      → Closes (end_with p status kind payload)
  end_with-Closes status kind payload final = Yields-then _ _ (
      Yields-bind _ _ (λ task.
        record_event-Closes kind (payload task) _ final
          (Spares-then _ _ (finish_run-Spares p) (Spares-reads _))))

  pub fail-Closes : (text : String) → Closes (fail p text)
  unfolding fail is_closing
  fail-Closes text = Yields-then _ _ (
      Yields-bind _ _
        (λ s. Yields-then _ _ (end_with-Closes CardStatus.failed EvidenceKind.failed _ refl)))

  pub cancel-Closes : Closes (cancel p)
  unfolding cancel is_closing
  cancel-Closes =
      Yields-then _ _ (end_with-Closes CardStatus.cancelled EvidenceKind.cancelled _ refl)

  pub deliver-Closes :
      (text : String) (artifacts : List Members) (answering : Bool)
      → Closes (deliver p text artifacts answering)
  unfolding deliver is_closing
  deliver-Closes text artifacts answering = Yields-then _ _ (
      Yields-then _ _ (
        Yields-bind _ _ (λ out. Yields-bind _ _ (λ s. Yields-then _ _ (
          Yields-then _ _ (
            Yields-then _ _
              (end_with-Closes CardStatus.delivered EvidenceKind.delivered _ refl)))))))
