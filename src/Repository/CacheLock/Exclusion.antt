-- ===== src/Repository/CacheLock/Exclusion.antt =====
-- internal/repository/cache.go: the owners of a lock, step by step.
use billing_simulator.Base.{
  ◌≡◌, ◌≤◌, refl, inl, inr, ap, subst, String, true, false, ◌==◌, ==_iff, Option, none, some, List,
  [], ◌∷◌, any, length, All, All-mono, arith, Option-cases,
}
use billing_simulator.Entity.Errors.{returns}
use billing_simulator.Entity.Events.{Uuid}
use billing_simulator.Repository.CacheLock.{
  Commands, IsLawful, lock, unlock, lock_key, release_if, taken,
}

apart_sym : (v w : Uuid) → (v == w) ≡ false → (w == v) ≡ false
apart_sym v w h = ground (arith, h)

All-always : {P : Uuid → Type 0} (vs : List Uuid) → ((v : Uuid) → P v) → All P vs
All-always [] k = tt
All-always (v ∷ vs) k = (k v, All-always vs k)

module _ {S : Type 0} (redis : Commands S) (key : String) where
  -- A state of Redis, with the callers that own the lock, and those that have owned it.
  pub record Locks : Type 0 where
    pub store : S
    pub owners : List Uuid
    pub past : List Uuid

  -- What can happen to one lock: a call of Lock succeeds, with a UUID that was not drawn before; an
  -- owner releases it; the time of an owner passes; and a former owner releases it, whose time has
  -- passed, or which has released it before.
  pub data Step : Locks → Locks → Type 0 where
    acquire :
        {v : Uuid} {s : S} {t : S} {owners past : List Uuid}
        → lock redis key v none s ≡ (returns tt, t)
        → All (λ w. (w == v) ≡ false) past
        → Step
            (record { store = s; owners = owners; past = past })
            (record { store = t; owners = v ∷ owners; past = past })
    release :
        {v : Uuid} {s : S} {owners past : List Uuid}
        → Step
            (record { store = s; owners = v ∷ owners; past = past })
            (record { store = unlock redis key v none s; owners = owners; past = v ∷ past })
    expire :
        {v : Uuid} {s : S} {owners past : List Uuid}
        → Step
            (record { store = s; owners = v ∷ owners; past = past })
            (record { store = redis.del (lock_key redis key) s; owners = owners; past = v ∷ past })
    release_late :
        (v : Uuid) {s : S} {owners past : List Uuid}
        → any (λ w. w == v) past ≡ true
        → Step
            (record { store = s; owners = owners; past = past })
            (record { store = unlock redis key v none s; owners = owners; past = past })

  pub data Reach : Locks → Locks → Type 0 where
    stay : {a : Locks} → Reach a a
    next : {a b c : Locks} → Reach a b → Step b c → Reach a c

  -- The owner that Redis knows.
  abbrev holder : Locks → Option Uuid
  holder l = redis.get (lock_key redis key) l.store

  abbrev pub as_list : Option Uuid → List Uuid
  as_list none = []
  as_list (some v) = v ∷ []

  -- No former owner is the owner.
  abbrev Apart : Option Uuid → List Uuid → Type 0
  Apart none past = Unit
  Apart (some v) past = All (λ w. (w == v) ≡ false) past

  abbrev Inv : Locks → Type 0
  Inv l = (l.owners ≡ as_list (holder l)) × Apart (holder l) l.past

  module _ (lawful : IsLawful redis) where
    -- Lock succeeds on a free lock only, and Redis then knows the owner.
    lock-takes :
        (v : Uuid) (s t : S)
        → lock redis key v none s ≡ (returns tt, t)
        → (redis.get (lock_key redis key) s ≡ none) × (redis.get (lock_key redis key) t ≡ some v)
    unfolding lock taken
    lock-takes v s t h = elim (Option-cases (redis.get (lock_key redis key) s)) [
      | inl free ↦ (free, ground (arith, h, lawful.set_free (lock_key redis key) v s free))
      | inr (w, held) ↦ absurd (ground (arith, h, lawful.set_held (lock_key redis key) v w s held))
    ]

    -- The owner's release frees the lock.
    unlock-frees :
        (v : Uuid) (s : S)
        → redis.get (lock_key redis key) s ≡ some v
        → redis.get (lock_key redis key) (unlock redis key v none s) ≡ none
    unfolding unlock release_if
    unlock-frees v s h =
        rw (unlock, h, release_if, (==_iff v v).1 refl) (lawful.get_deleted (lock_key redis key) s)

    other :
        (v w : Uuid) (past : List Uuid)
        → All (λ x. (x == w) ≡ false) past
        → any (λ x. x == v) past ≡ true
        → (w == v) ≡ false
    other v w [] h k = absurd (ground arith)
    other v w (x ∷ xs) (h, hs) k =
        ground (arith, λ (e : any (λ x. x == v) xs ≡ true). other v w xs hs e)

    -- The release of a former owner leaves Redis as it is.
    unlock-keeps :
        (v : Uuid) (s : S) (past : List Uuid)
        → Apart (redis.get (lock_key redis key) s) past
        → any (λ w. w == v) past ≡ true
        → unlock redis key v none s ≡ s
    unfolding unlock release_if
    unlock-keeps v s past h k = elim (Option-cases (redis.get (lock_key redis key) s)) [
      | inl e ↦ rw (unlock, e) refl
      | inr (w, e) ↦
          let apart : All (λ x. (x == w) ≡ false) past = subst (λ o. Apart o past) e h in
          rw (unlock, e, release_if, other v w past apart k) refl
    ]

    own_head :
        (v : Uuid) (owners : List Uuid) (o : Option Uuid)
        → v ∷ owners ≡ as_list o
        → (o ≡ some v) × (owners ≡ [])
    own_head v owners none h = absurd (ground arith)
    own_head v owners (some w) h = ground arith

    move_keeps : {a b : Locks} → Inv a → Step a b → Inv b
    move_keeps (h, k) (acquire {v} {s} {t} {owners} got fresh) =
        let (free, mine) = lock-takes v s t got in
        let alone : owners ≡ [] = subst (λ o. owners ≡ as_list o) free h in
        rw mine (ap (λ vs. v ∷ vs) alone, fresh)
    move_keeps (h, k) (release {v} {s} {owners}) =
        let (mine, alone) = own_head v owners (redis.get (lock_key redis key) s) h in
        rw (unlock-frees v s mine) (alone, tt)
    move_keeps (h, k) (expire {v} {s} {owners}) =
        let (mine, alone) = own_head v owners (redis.get (lock_key redis key) s) h in
        rw (lawful.get_deleted (lock_key redis key) s) (alone, tt)
    move_keeps (h, k) (release_late v {s} {owners} {past} known) =
        rw (unlock-keeps v s past k known) (h, k)

    run_keeps : {a b : Locks} → Inv a → Reach a b → Inv b
    run_keeps h stay = h
    run_keeps h (next r s) = move_keeps (run_keeps h r) s

    at_most_one : (o : Option Uuid) (owners : List Uuid) → owners ≡ as_list o → length owners ≤ 1
    at_most_one none owners h = rw h (omega arith)
    at_most_one (some v) owners h = rw h (omega arith)

    none_releases :
        (o : Option Uuid) (past : List Uuid)
        → Apart o past
        → (s : S) → redis.get (lock_key redis key) s ≡ o
        → All (λ v. unlock redis key v none s ≡ s) past
    unfolding unlock release_if
    none_releases none past h s e = All-always past λ v. rw (unlock, e) refl
    none_releases (some w) past h s e =
        All-mono past h λ v q. rw (unlock, e, release_if, apart_sym v w q) refl

    -- Over commands of Redis that do what it documents: from a state in which the lock is free and
    -- has never been owned, however callers lock it and release it, early or late, and whenever the
    -- time of an owner passes, at most one caller owns the lock, Redis holds the UUID of the owner,
    -- if there is one, and the release of any former owner leaves Redis as it is.
    pub lock-exclusion :
        (s : S) (l : Locks)
        → redis.get (lock_key redis key) s ≡ none
        → Reach (record { store = s; owners = []; past = [] }) l
        → (length l.owners ≤ 1)
          × (l.owners ≡ as_list (redis.get (lock_key redis key) l.store))
          × All (λ v. unlock redis key v none l.store ≡ l.store) l.past
    lock-exclusion s l free r =
        let inv = run_keeps (rw free (refl, tt)) r in
        let o = redis.get (lock_key redis key) l.store in
        (at_most_one o l.owners inv.0, inv.0, none_releases o l.past inv.1 l.store refl)
