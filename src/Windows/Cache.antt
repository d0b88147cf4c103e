-- ===== src/Windows/Cache.antt =====
-- app/processors/apr_windows.py, `get_windows`: what the cache promises.
use funding_radar.Base.{
  ℕ, ◌+◌, ◌≤◌, ◌<◌, String, ◌≡◌, refl, none, some, arith, by_text, by_parts, same_refl,
}
use funding_radar.Base.Text.{upper}
use funding_radar.Base.Float.{Floats}
use funding_radar.Redis.{get, set_ex, get-set_ex}
use funding_radar.Windows.{Query, Cache, query_windows, get_windows, cache_ttl}

module _ (F : Floats) where
  -- A look-up within the minute after another answers the same, whatever the database has come to hold,
  -- provided that the first was not answered from the cache.
  pub get_windows_again :
      (query query' : Query F) (now later : ℕ) (exchange token : String) (c : Cache F)
      → get now (exchange, upper token) c ≡ none
      → now ≤ later
      → later < now + cache_ttl
      → (get_windows F query' later exchange token (get_windows F query now exchange token c).0).1
        ≡ query_windows F query exchange token
  unfolding get_windows
  get_windows_again query query' now later exchange token c h a b =
      let key : String × String = (exchange, upper token) in
      let result = query_windows F query exchange token in
      let stored : get later key (set_ex now key result cache_ttl c) ≡ some result =
        ground (arith, get-set_ex now later key key result cache_ttl c, same_refl key) in
      let first : get_windows F query now exchange token c
          ≡ (set_ex now key result cache_ttl c, result) =
        rw (h, get_windows) refl in
      rw first (rw (stored, get_windows) refl)
