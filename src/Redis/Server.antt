-- ===== src/Redis/Server.antt =====
-- The commands of the Redis server that the program issues, with their documented effect on the live
-- entries: a value, and the milliseconds left to it where it expires.
use tech_trends.Base.{
  ℕ, ◌+◌, ◌-◌, ◌<◌, ◌≡◌, Bool, true, false, ltb, if◌then◌else◌, Option, none, some, Text, text_eq,
  decimal, ok, Action, is_some,
}

abbrev pub Entry : Type 0
Entry = Text × Option ℕ

abbrev pub value_of : Option Entry → Option Text
value_of none = none
value_of (some (v, ttl)) = some v

-- The reply of `PTTL`: none for -2 (no key), some none for -1 (no expiry).
abbrev pub ttl_of : Option Entry → Option (Option ℕ)
ttl_of none = none
ttl_of (some (v, ttl)) = some ttl

abbrev pub with_ttl : ℕ → Option Entry → Option Entry
with_ttl ms none = none
with_ttl ms (some (v, ttl)) = some (v, some ms)

-- An entry `d` milliseconds later.
abbrev pub aged : ℕ → Option Entry → Option Entry
aged d none = none
aged d (some (v, none)) = some (v, none)
aged d (some (v, some ms)) = if ltb d ms then some (v, some (ms - d)) else none

pub record Server : Type 1 where
  pub Keyspace : Type 0
  pub entry : Keyspace → Text → Option Entry
  pub get : Text → Keyspace → Option Text
  pub pttl : Text → Keyspace → Option (Option ℕ)
  pub exists : Text → Keyspace → Bool
  pub del : Text → Keyspace → Keyspace
  -- `SET k v`, `SET k v PX ms`, and `SET k v PX ms NX`, which says whether it was set.
  pub set : Text → Text → Keyspace → Keyspace
  pub set_px : Text → Text → ℕ → Keyspace → Keyspace
  pub set_px_nx : Text → Text → ℕ → Keyspace → Bool × Keyspace
  pub incr : Text → Keyspace → ℕ × Keyspace
  pub pexpire : Text → ℕ → Keyspace → Keyspace
  -- Time passes.
  pub elapse : ℕ → Keyspace → Keyspace

pub record ServerLaws (srv : Server) : Type 0 where
  pub get_lem : (k : Text) (s : srv.Keyspace) → srv.get k s ≡ value_of (srv.entry s k)
  pub pttl_lem : (k : Text) (s : srv.Keyspace) → srv.pttl k s ≡ ttl_of (srv.entry s k)
  pub exists_lem : (k : Text) (s : srv.Keyspace) → srv.exists k s ≡ is_some (srv.entry s k)
  pub entry-del :
      (k j : Text) (s : srv.Keyspace)
      → srv.entry (srv.del k s) j ≡ (if text_eq j k then none else srv.entry s j)
  pub entry-set :
      (k v j : Text) (s : srv.Keyspace)
      → srv.entry (srv.set k v s) j ≡ (if text_eq j k then some (v, none) else srv.entry s j)
  pub entry-set_px :
      (k v : Text) (ms : ℕ) (j : Text) (s : srv.Keyspace)
      → 0 < ms
      → srv.entry (srv.set_px k v ms s) j
        ≡ (if text_eq j k then some (v, some ms) else srv.entry s j)
  pub set_px_nx_free :
      (k v : Text) (ms : ℕ) (s : srv.Keyspace)
      → 0 < ms
      → srv.entry s k ≡ none
      → srv.set_px_nx k v ms s ≡ (true, srv.set_px k v ms s)
  pub set_px_nx_taken :
      (k v : Text) (ms : ℕ) (s : srv.Keyspace) (e : Entry)
      → srv.entry s k ≡ some e
      → srv.set_px_nx k v ms s ≡ (false, s)
  -- On a missing key, and on one that holds a count.
  pub incr_missing :
      (k : Text) (s : srv.Keyspace)
      → srv.entry s k ≡ none
      → ((srv.incr k s).0 ≡ 1) × (srv.entry (srv.incr k s).1 k ≡ some (decimal 1, none))
  pub incr_count :
      (k : Text) (n : ℕ) (ttl : Option ℕ) (s : srv.Keyspace)
      → srv.entry s k ≡ some (decimal n, ttl)
      → ((srv.incr k s).0 ≡ n + 1) × (srv.entry (srv.incr k s).1 k ≡ some (decimal (n + 1), ttl))
  pub incr_other :
      (k j : Text) (s : srv.Keyspace)
      → text_eq j k ≡ false
      → srv.entry (srv.incr k s).1 j ≡ srv.entry s j
  pub entry-pexpire :
      (k : Text) (ms : ℕ) (j : Text) (s : srv.Keyspace)
      → 0 < ms
      → srv.entry (srv.pexpire k ms s) j
        ≡ (if text_eq j k then with_ttl ms (srv.entry s k) else srv.entry s j)
  pub entry-elapse :
      (d : ℕ) (j : Text) (s : srv.Keyspace) → srv.entry (srv.elapse d s) j ≡ aged d (srv.entry s j)

-- A connection: a command, or a script as a whole, runs at the server or the promise rejects.
pub record Client (srv : Server) : Type 1 where
  pub State : Type 0
  pub keyspace : State → srv.Keyspace
  pub call : (A : Type 0) → (srv.Keyspace → A × srv.Keyspace) → Action State Text A

pub record ClientLaws (srv : Server) (c : Client srv) : Type 1 where
  pub call_ok :
      (A : Type 0) (f : srv.Keyspace → A × srv.Keyspace) (s : c.State) (a : A)
      → (c.call A f s).0 ≡ ok a
      → (a ≡ (f (c.keyspace s)).0) × (c.keyspace (c.call A f s).1 ≡ (f (c.keyspace s)).1)
