-- ===== src/Scheduler/Exclusion.antt =====
-- The invariant of statuses, dependents and workers under the protocol of Scheduler.Effects, for
-- crates/pevm/src/scheduler.rs.
use pevm.Base.{
  ℕ, ◌<◌, ◌≡◌, ◌≢◌, refl, sym, true, some, [], ◌∷◌, arith, contains, contains-append, Nodup,
  Nodup-snoc, ◌==◌, update, inl, inr, ◌⊎◌, subst, Bool-cases,
}
use pevm.Types.{TxIdx, executing, aborting}
use pevm.Scheduler.{Scheduler}
use pevm.Scheduler.Workers.{Worker, executes, resumes, resumed, aborts, validates, confirms}
use pevm.Scheduler.Effects.{
  holds, status_of, incarnation_of, Held, Effect, quiet, stay, incarnate, wait, revive, finish,
  settle, abandon, resume,
}

-- The transactions that wait for `b` are aborting, higher than `b` and in the block.
pub record Waits (s : Scheduler) (b t : TxIdx) : Type 0 where
  pub higher : b < t
  pub inside : t < s.block_size
  pub status : status_of s t ≡ aborting

-- Who has a transaction: one worker at most, or one list of dependents, once.
pub record Inv (s : Scheduler) (ws : ℕ → Worker) : Type 0 where
  pub held : (i : ℕ) → Held s (ws i)
  pub once : (i j t : ℕ) → holds (ws i) ≡ some t → holds (ws j) ≡ some t → i ≡ j
  pub parked : (b t : TxIdx) → contains (s.transactions_dependents b) t ≡ true → Waits s b t
  pub apart : (b t i : ℕ) → contains (s.transactions_dependents b) t ≡ true → holds (ws i) ≢ some t
  pub one_list :
      (b c t : TxIdx)
      → contains (s.transactions_dependents b) t ≡ true
      → contains (s.transactions_dependents c) t ≡ true
      → b ≡ c
  pub nodup : (b : TxIdx) → Nodup (s.transactions_dependents b)

-- A worker that has a transaction finds it executing or aborting.
pub Held-status :
    (s : Scheduler) (w : Worker) (t : TxIdx)
    → Held s w
    → holds w ≡ some t
    → (status_of s t ≡ executing) ⊎ (status_of s t ≡ aborting)
Held-status s (executes v) t h e = ground arith
Held-status s (resumes v f) t h e = ground arith
Held-status s (resumed v f d) t h e = ground arith
Held-status s (aborts v) t h e = ground arith
Held-status s _ t h e = cc

-- What a worker's version says stays true if its transaction is left alone.
Held-keep :
    (s s' : Scheduler) (w : Worker)
    → s'.block_size ≡ s.block_size
    → ((t : TxIdx)
        → holds w ≡ some t
        → (status_of s' t ≡ status_of s t) × (incarnation_of s' t ≡ incarnation_of s t))
    → Held s w
    → Held s' w
Held-keep s s' (executes v) b k h = ground (arith, k v.tx_idx)
Held-keep s s' (resumes v f) b k h = ground (arith, k v.tx_idx)
Held-keep s s' (resumed v f d) b k h = ground (arith, k v.tx_idx)
Held-keep s s' (aborts v) b k h = ground (arith, k v.tx_idx)
Held-keep s s' (validates v) b k h = omega arith
Held-keep s s' (confirms v) b k h = omega arith
Held-keep s s' _ b k h = tt

pub Effect-size :
    {s s' : Scheduler} {p p' : Worker} → Effect s p s' p' → s'.block_size ≡ s.block_size
Effect-size (quiet k h f) = k.size
Effect-size (stay k h f) = k.size
Effect-size (incarnate v lt r m k h) = m.size
Effect-size (wait v b h lt m q) = m.size
Effect-size (revive v fl d rest h u m q) = m.size
Effect-size (finish v fl st h dn m q) = m.size
Effect-size (settle v h r m q) = m.size
Effect-size (abandon v lt r m q) = m.size
Effect-size (resume v h m q) = m.size

module _ {s : Scheduler} {ws : ℕ → Worker} (inv : Inv s ws) (i : ℕ) where
  open inv use {held, once, parked, apart, one_list, nodup}

  -- Transactions of other workers, as each effect finds them.
  Effect-other :
      {p p' : Worker} {s' : Scheduler}
      → ws i ≡ p
      → Effect s p s' p'
      → (j t : ℕ) → i ≢ j
      → holds (ws j) ≡ some t
      → (status_of s' t ≡ status_of s t) × (incarnation_of s' t ≡ incarnation_of s t)
  Effect-other e (quiet k h f) j t ne o = (k.status t, k.incarnation t)
  Effect-other e (stay k h f) j t ne o = (k.status t, k.incarnation t)
  Effect-other e (incarnate v lt r m k h) j t ne o =
      ground (arith, m.status t, m.incarnation t, Held-status s (ws j) t (held j))
  Effect-other e (wait v b h lt m q) j t ne o =
      ground (arith, m.status t, m.incarnation t, once i j t)
  Effect-other e (revive v fl d rest h u m q) j t ne o =
      ground (arith, m.status t, m.incarnation t, apart v.tx_idx t j)
  Effect-other e (finish v fl st h dn m q) j t ne o =
      ground (arith, m.status t, m.incarnation t, once i j t)
  Effect-other e (settle v h r m q) j t ne o =
      ground (arith, m.status t, m.incarnation t, Held-status s (ws j) t (held j))
  Effect-other e (abandon v lt r m q) j t ne o =
      ground (arith, m.status t, m.incarnation t, Held-status s (ws j) t (held j))
  Effect-other e (resume v h m q) j t ne o = ground (arith, m.status t, m.incarnation t, once i j t)

  -- The worker that moves.
  Effect-self : {p p' : Worker} {s' : Scheduler} → Held s p → Effect s p s' p' → Held s' p'
  Effect-self e (quiet k h f) = f
  Effect-self {p} {p'} {s'} e (stay k h f) =
      Held-keep s s' p' k.size (λ t _. (k.status t, k.incarnation t)) (f e)
  Effect-self {s'} e (incarnate v lt r m k h) =
      subst (Held s') (sym h) (ground (arith, m.size, m.status v.tx_idx, m.incarnation v.tx_idx))
  Effect-self {s'} e (wait v b h lt m q) = subst (Held s') (sym q) tt
  Effect-self {s'} e (revive v fl d rest h u m q) =
      let f : Held s (resumes v fl) = subst (Held s) h e in
      let w : Waits s v.tx_idx d = parked v.tx_idx d (ground arith) in
      subst (Held s') (sym q)
        (ground (arith, m.size, m.status v.tx_idx, m.incarnation v.tx_idx, w.status))
  Effect-self {s'} e (finish v fl st h dn m (inl q)) = subst (Held s') (sym q) tt
  Effect-self {s'} e (finish v fl st h dn m (inr q)) =
      let f : Held s (resumes v fl) = subst (Held s) h e in
      subst (Held s') (sym q) (omega (arith, m.size, f.0))
  Effect-self {s'} e (settle v h r m q) = subst (Held s') (sym q) tt
  Effect-self {s'} e (abandon v lt r m q) =
      subst (Held s') (sym q) (ground (arith, m.size, m.status v.tx_idx))
  Effect-self {s'} e (resume v h m q) = subst (Held s') (sym q) tt

  -- Nobody else has what the moving worker has now.
  Effect-fresh :
      {p p' : Worker} {s' : Scheduler}
      → ws i ≡ p
      → Effect s p s' p'
      → (j t : ℕ) → i ≢ j
      → holds p' ≡ some t
      → holds (ws j) ≢ some t
  Effect-fresh e (quiet k h f) j t ne o = λ x. cc
  Effect-fresh e (stay k h f) j t ne o = λ x. ground (arith, once i j t)
  Effect-fresh e (incarnate v lt r m k h) j t ne o =
      λ x. ground (arith, Held-status s (ws j) t (held j))
  Effect-fresh e (wait v b h lt m q) j t ne o = λ x. cc
  Effect-fresh e (revive v fl d rest h u m q) j t ne o = λ x. ground (arith, once i j t)
  Effect-fresh e (finish v fl st h dn m q) j t ne o = λ x. ground arith
  Effect-fresh e (settle v h r m q) j t ne o = λ x. cc
  Effect-fresh e (abandon v lt r m q) j t ne o =
      λ x. ground (arith, Held-status s (ws j) t (held j))
  Effect-fresh e (resume v h m q) j t ne o = λ x. cc

  -- A transaction in a list of dependents after the move was in one before, or is the one that the
  -- move parks.
  Effect-parked :
      {p p' : Worker} {s' : Scheduler}
      → ws i ≡ p
      → Effect s p s' p'
      → (b t : ℕ) → contains (s'.transactions_dependents b) t ≡ true
      → Waits s' b t
  Effect-parked e (quiet k h f) b t c =
      ground (arith, k.size, k.status t, k.dependents b, parked b t)
  Effect-parked e (stay k h f) b t c =
      ground (arith, k.size, k.status t, k.dependents b, parked b t)
  Effect-parked e (incarnate v lt r m k h) b t c =
      ground (arith, m.size, m.status t, m.dependents b, parked b t)
  Effect-parked e (wait v b' h lt m q) b t c = ground (
    arith,
    m.size,
    m.status t,
    m.dependents b,
    parked b t,
    held i,
    contains-append (s.transactions_dependents b) (v.tx_idx ∷ []) t,
  )
  Effect-parked e (revive v fl d rest h u m q) b t c =
      ground (
        arith,
        m.size,
        m.status t,
        m.dependents b,
        parked b t,
        one_list b v.tx_idx t,
        nodup v.tx_idx,
      )
  Effect-parked e (finish v fl st h dn m q) b t c =
      ground (arith, m.size, m.status t, m.dependents b, parked b t, apart b t i)
  Effect-parked e (settle v h r m q) b t c =
      ground (arith, m.size, m.status t, m.dependents b, parked b t)
  Effect-parked e (abandon v lt r m q) b t c =
      ground (arith, m.size, m.status t, m.dependents b, parked b t)
  Effect-parked e (resume v h m q) b t c =
      ground (arith, m.size, m.status t, m.dependents b, parked b t, apart b t i)

  Effect-apart :
      {p p' : Worker} {s' : Scheduler}
      → ws i ≡ p
      → Effect s p s' p'
      → (b t j : ℕ) → contains (s'.transactions_dependents b) t ≡ true
      → holds (update ws i p' j) ≢ some t
  Effect-apart e (quiet k h f) b t j c = λ x. ground (arith, k.dependents b, apart b t j)
  Effect-apart e (stay k h f) b t j c = λ x. ground (arith, k.dependents b, apart b t j)
  Effect-apart e (incarnate v lt r m k h) b t j c =
      λ x. ground (arith, m.dependents b, parked b t, apart b t j)
  Effect-apart e (wait v b' h lt m q) b t j c = λ x. ground (
    arith,
    m.dependents b,
    apart b t j,
    once i j t,
    contains-append (s.transactions_dependents b) (v.tx_idx ∷ []) t,
  )
  Effect-apart e (revive v fl d rest h u m q) b t j c =
      λ x. ground (arith, m.dependents b, apart b t j, apart b t i)
  Effect-apart e (finish v fl st h dn m q) b t j c =
      λ x. ground (arith, m.dependents b, apart b t j)
  Effect-apart e (settle v h r m q) b t j c = λ x. ground (arith, m.dependents b, apart b t j)
  Effect-apart e (abandon v lt r m q) b t j c =
      λ x. ground (arith, m.dependents b, parked b t, apart b t j)
  Effect-apart e (resume v h m q) b t j c = λ x. ground (arith, m.dependents b, apart b t j)

  Effect-one_list :
      {p p' : Worker} {s' : Scheduler}
      → ws i ≡ p
      → Effect s p s' p'
      → (b c t : ℕ) → contains (s'.transactions_dependents b) t ≡ true
      → contains (s'.transactions_dependents c) t ≡ true
      → b ≡ c
  Effect-one_list e (quiet k h f) b c t x y =
      ground (arith, k.dependents b, k.dependents c, one_list b c t)
  Effect-one_list e (stay k h f) b c t x y =
      ground (arith, k.dependents b, k.dependents c, one_list b c t)
  Effect-one_list e (incarnate v lt r m k h) b c t x y =
      ground (arith, m.dependents b, m.dependents c, one_list b c t)
  Effect-one_list e (wait v b' h lt m q) b c t x y = ground (
    arith,
    m.dependents b,
    m.dependents c,
    one_list b c t,
    apart b t i,
    apart c t i,
    contains-append (s.transactions_dependents b') (v.tx_idx ∷ []) t,
  )
  Effect-one_list e (revive v fl d rest h u m q) b c t x y =
      ground (arith, m.dependents b, m.dependents c, one_list b c t)
  Effect-one_list e (finish v fl st h dn m q) b c t x y =
      ground (arith, m.dependents b, m.dependents c, one_list b c t)
  Effect-one_list e (settle v h r m q) b c t x y =
      ground (arith, m.dependents b, m.dependents c, one_list b c t)
  Effect-one_list e (abandon v lt r m q) b c t x y =
      ground (arith, m.dependents b, m.dependents c, one_list b c t)
  Effect-one_list e (resume v h m q) b c t x y =
      ground (arith, m.dependents b, m.dependents c, one_list b c t)

  Effect-Nodup :
      {p p' : Worker} {s' : Scheduler}
      → ws i ≡ p
      → Effect s p s' p'
      → (b : ℕ) → Nodup (s'.transactions_dependents b)
  Effect-Nodup e (quiet k h f) b = rw (k.dependents b) (nodup b)
  Effect-Nodup e (stay k h f) b = rw (k.dependents b) (nodup b)
  Effect-Nodup e (incarnate v lt r m k h) b = rw (m.dependents b) (nodup b)
  Effect-Nodup {s'} e (wait v b' h lt m q) b = rw (m.dependents b) (elim (Bool-cases (b' == b)) [
    | inl same ↦ rw same (
        Nodup-snoc (s.transactions_dependents b') v.tx_idx (nodup b')
          (elim (Bool-cases (contains (s.transactions_dependents b') v.tx_idx)) [
            | inl c ↦ absurd (apart b' v.tx_idx i c (ground arith))
            | inr c ↦ c
          ]))
    | inr other ↦ rw other (nodup b)
  ])
  Effect-Nodup e (revive v fl d rest h u m q) b =
      rw (m.dependents b) (elim (Bool-cases (v.tx_idx == b)) [
        | inl same ↦ rw same (subst Nodup u (nodup v.tx_idx)).1
        | inr other ↦ rw other (nodup b)
      ])
  Effect-Nodup e (finish v fl st h dn m q) b = rw (m.dependents b) (nodup b)
  Effect-Nodup e (settle v h r m q) b = rw (m.dependents b) (nodup b)
  Effect-Nodup e (abandon v lt r m q) b = rw (m.dependents b) (nodup b)
  Effect-Nodup e (resume v h m q) b = rw (m.dependents b) (nodup b)

  Effect-Held :
      {p' : Worker} {s' : Scheduler} → Effect s (ws i) s' p' → (j : ℕ) → Held s' (update ws i p' j)
  Effect-Held {p'} {s'} m j = elim (Bool-cases (i == j)) [
    | inl same ↦ rw same (Effect-self (held i) m)
    | inr other ↦ rw other (
        Held-keep s s' (ws j) (Effect-size m) (λ t o. Effect-other refl m j t (ground arith) o)
          (held j))
  ]

  Effect-once :
      {p' : Worker} {s' : Scheduler}
      → Effect s (ws i) s' p'
      → (j k t : ℕ) → holds (update ws i p' j) ≡ some t
      → holds (update ws i p' k) ≡ some t
      → j ≡ k
  Effect-once m j k t x y =
      ground (arith, once j k t, Effect-fresh refl m j t, Effect-fresh refl m k t)

  -- Every effect keeps the invariant.
  pub Effect-Inv : {p' : Worker} {s' : Scheduler} → Effect s (ws i) s' p' → Inv s' (update ws i p')
  Effect-Inv m = record {
    held = Effect-Held m;
    once = Effect-once m;
    parked = Effect-parked refl m;
    apart = Effect-apart refl m;
    one_list = Effect-one_list refl m;
    nodup = Effect-Nodup refl m;
  }
