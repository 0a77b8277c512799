-- ===== src/Repository/CacheLock/Memory.antt =====
-- Commands of Redis on a function from keys to values, which do what is asked of them in
-- internal/repository/cache.go.
use billing_simulator.Base.{
  refl, String, Bool, true, false, str_eq, str_eq_refl, Option, none, some, if◌then◌else◌,
}
use billing_simulator.Entity.Events.{Uuid}
use billing_simulator.Repository.CacheLock.{Commands, IsLawful}

abbrev pub Keys : Type 0
Keys = String → Option Uuid

abbrev set : String → Option Uuid → Keys → Keys
set k v s j = if str_eq j k then v else s j

abbrev set_if_free : Option Uuid → String → Uuid → Keys → Bool × Keys
set_if_free none k v s = (true, set k (some v) s)
set_if_free (some w) k v s = (false, s)

abbrev pub memory : Commands Keys
memory = record {
  get = λ k s. s k;
  set_nx = λ k v s. set_if_free (s k) k v s;
  del = λ k s. set k none s;
}

pub memory-IsLawful : IsLawful memory
memory-IsLawful = record {
  set_free = λ k v s h. rw (h, str_eq_refl k) (refl, refl);
  set_held = λ k v w s h. rw h refl;
  get_deleted = λ k s. rw (str_eq_refl k) refl;
}
