-- ===== src/Redis/Demo.antt =====
-- A server whose keyspace is a function, and a client that always reaches it.
use tech_trends.Base.{
  ℕ, ◌+◌, ◌≡◌, refl, sym, Bool, true, false, Option, none, some, if◌then◌else◌, Text, text_eq,
  text_eq_refl, ok_injective, decimal, value_from, value_from-decimal, ok, is_some,
}
use tech_trends.Redis.Server.{
  Server, ServerLaws, Client, ClientLaws, Entry, value_of, ttl_of, with_ttl, aged,
}

abbrev pub Table : Type 0
Table = Text → Option Entry

abbrev pub put : Text → Option Entry → Table → Table
put k e s j = if text_eq j k then e else s j

abbrev pub set_nx_found : Text → Text → ℕ → Option Entry → Table → Bool × Table
set_nx_found k v ms none s = (true, put k (some (v, some ms)) s)
set_nx_found k v ms (some e) s = (false, s)

abbrev pub incr_found : Text → Option Entry → Table → ℕ × Table
incr_found k none s = (1, put k (some (decimal 1, none)) s)
incr_found k (some (v, ttl)) s =
    (value_from 0 v + 1, put k (some (decimal (value_from 0 v + 1), ttl)) s)

abbrev pub server : Server
server = record {
  Keyspace = Table;
  entry = λ s k. s k;
  get = λ k s. value_of (s k);
  pttl = λ k s. ttl_of (s k);
  exists = λ k s. is_some (s k);
  del = λ k s. put k none s;
  set = λ k v s. put k (some (v, none)) s;
  set_px = λ k v ms s. put k (some (v, some ms)) s;
  set_px_nx = λ k v ms s. set_nx_found k v ms (s k) s;
  incr = λ k s. incr_found k (s k) s;
  pexpire = λ k ms s. put k (with_ttl ms (s k)) s;
  elapse = λ d s k. aged d (s k);
}

incr_found_other :
    (k j : Text) (e : Option Entry) (s : Table) → text_eq j k ≡ false → (incr_found k e s).1 j ≡ s j
incr_found_other k j none s h = rw h
incr_found_other k j (some (v, ttl)) s h = rw h

incr_found_count :
    (k : Text) (n : ℕ) (ttl : Option ℕ) (s : Table)
    → let o = incr_found k (some (decimal n, ttl)) s in
      (o.0 ≡ n + 1) × (o.1 k ≡ some (decimal (n + 1), ttl))
incr_found_count k n ttl s = rw (value_from-decimal n) (refl, rw (text_eq_refl k))

pub server-Laws : ServerLaws server
server-Laws = record {
  get_lem = λ k s. refl;
  pttl_lem = λ k s. refl;
  exists_lem = λ k s. refl;
  entry-del = λ k j s. refl;
  entry-set = λ k v j s. refl;
  entry-set_px = λ k v ms j s _. refl;
  set_px_nx_free = λ k v ms s _ h. rw h;
  set_px_nx_taken = λ k v ms s e h. rw h;
  incr_missing = λ k s h. rw h (refl, rw (text_eq_refl k));
  incr_count = λ k n ttl s h. rw h (incr_found_count k n ttl s);
  incr_other = λ k j s h. incr_found_other k j (s k) s h;
  entry-pexpire = λ k ms j s _. refl;
  entry-elapse = λ d j s. refl;
}

abbrev pub client : Client server
client = record { State = Table; keyspace = λ s. s; call = λ A f s. (ok (f s).0, (f s).1) }

pub client-Laws : ClientLaws server client
client-Laws = record { call_ok = λ A f s a h. (sym (ok_injective h), refl) }

abbrev pub empty : Table
empty k = none
