-- ===== src/Repository/Cache.antt =====
-- internal/repository/cache.go, but for Lock, which CacheLock models, and Incr, which hands on the
-- answer of its command. Redis is the text under each key; a time to live has not passed. Errors of the
-- commands are inputs, and so is JSON. An item of a batch is a pair of the map, in the order in which
-- the map gives its pairs, of which no two have one key.
pub mod Laws
use billing_simulator.Base.{
  String, Bool, true, false, Option, none, some, List, [], ◌∷◌, str_eq, is_some, if◌then◌else◌,
}
use billing_simulator.Entity.Errors.{
  Outcome, returns, fails, panics, overflows, Error, message, ◌>>=◌,
}

abbrev pub Redis : Type 0
Redis = String → Option String

-- SET and DEL
unfoldable pub put : String → Option String → Redis → Redis
put key v redis j = if str_eq key j then v else redis j

-- What the pipeline writes
unfoldable pub put_all : List (String × String) → Redis → Redis
unfolding put
put_all [] redis = redis
put_all ((key, text) ∷ commands) redis = put_all commands (put key (some text) redis)

-- What GET of a pipeline answers: the value, `redis.Nil`, or another error.
pub data Reply : Type 0 where
  value : String → Reply
  missing : Reply
  broken : Error → Reply

module _ {V : Type 0} (marshal : V → Outcome String) (unmarshal : String → Outcome V) where
  -- `Set`
  unfoldable pub set_value : String → V → Option Error → Redis → Outcome Redis
  unfolding put
  set_value key v (some e) redis = marshal v >>= (λ _. fails e)
  set_value key v none redis = marshal v >>= (λ text. returns (put key (some text) redis))

  -- The commands that the loop of `SetBatch` puts into the pipeline
  unfoldable pub pipeline : List (String × V) → Outcome (List (String × String))
  pipeline [] = returns []
  pipeline ((key, v) ∷ items) = do
    text ← marshal v
    commands ← pipeline items
    returns ((key, text) ∷ commands)

  -- `SetBatch`
  unfoldable pub set_batch : List (String × V) → Option Error → Redis → Outcome Redis
  unfolding pipeline put_all
  set_batch items (some e) redis = pipeline items >>= (λ _. fails e)
  set_batch items none redis = pipeline items >>= (λ commands. returns (put_all commands redis))

  read : Option String → Outcome V
  read none = fails (message "cache miss")
  read (some text) = unmarshal text

  -- `Get`
  unfoldable pub get_value : String → Option Error → Redis → Outcome V
  unfolding read
  get_value key (some e) redis = fails e
  get_value key none redis = read (redis key)

-- An answer of the pipeline before those of the keys that follow.
unfoldable pub with_reply :
    String → Reply → Outcome (List (String × String)) → Outcome (List (String × String))
with_reply key (value text) rest = rest >>= (λ found. returns ((key, text) ∷ found))
with_reply key missing rest = rest
with_reply key (broken e) rest = fails e

-- `GetBatch`: the values of the keys that are there, unless a command is broken.
unfoldable pub get_batch : (String → Reply) → List String → Outcome (List (String × String))
unfolding with_reply
get_batch reply [] = returns []
get_batch reply (key ∷ keys) = with_reply key (reply key) (get_batch reply keys)

-- `Delete`
unfoldable pub delete : String → Option Error → Redis → Outcome Redis
unfolding put
delete key (some e) redis = fails e
delete key none redis = returns (put key none redis)

-- `Exists`
unfoldable pub exists : String → Option Error → Redis → Outcome Bool
exists key (some e) redis = fails e
exists key none redis = returns (is_some (redis key))
