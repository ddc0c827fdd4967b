-- ===== src/Redisx/Cacher/Laws.antt =====
-- redisx/: what a cacher keeps.
use g_micor.Base.{ℕ, ◌≡◌, refl, ap, sym, ◌∙◌, true, String, Option, none, some}
use g_micor.Base.Bytes.{Bytes}
use g_micor.Redisx.Cacher.{
  Client, Format, Cacher, cache_key, set_value, get_value, get, set, get_with_fallback,
}

-- What is relied on of Redis, before keys expire: a key that was set has its value.
pub record IsRedis {S : Type 0} (client : Client S) : Type 0 where
  pub get_set :
      (key : String) (text : Bytes) (expire : ℕ) (s : S)
      → (client.set key text expire s).0 ≡ true
      → client.get key (client.set key text expire s).1 ≡ some text

module _ {S T : Type 0} (client : Client S) (format : Format T) (c : Cacher) where
  set-encoded :
      (key : String) (v : T) (text : Bytes) (s : S)
      → format.encode v ≡ some text
      → set client format c key v s ≡ client.set (cache_key c key) text c.expire s
  unfolding set
  set-encoded key v text s enc = rw (enc, set, set_value) refl

  got :
      (key : String) (text : Bytes) (v : T) (s : S)
      → client.get (cache_key c key) s ≡ some text
      → format.decode text ≡ some v
      → get client format c key s ≡ some v
  unfolding get
  got key text v s there dec = rw (there, get, get_value) dec

  hit :
      (key : String) (v : T) (fallback : Option T) (s : S)
      → get client format c key s ≡ some v
      → get_with_fallback client format c key fallback s ≡ (some v, s)
  unfolding get_with_fallback
  hit key v fallback s there = rw (there, get_with_fallback) refl

  missed :
      (key : String) (v : T) (s : S)
      → get client format c key s ≡ none
      → get_with_fallback client format c key (some v) s ≡ (some v, (set client format c key v s).1)
  unfolding get_with_fallback
  missed key v s miss = rw (miss, get_with_fallback) refl

module _ {S T : Type 0} (client : Client S) (format : Format T) (c : Cacher)
    (redis : IsRedis client) where
  -- A value that was set is got, if its bytes can be read back.
  pub get-set :
      (key : String) (v : T) (text : Bytes) (s : S)
      → format.encode v ≡ some text
      → format.decode text ≡ some v
      → (set client format c key v s).0 ≡ true
      → get client format c key (set client format c key v s).1 ≡ some v
  get-set key v text s enc dec done =
      let sets = set-encoded client format c key v text s enc in
      ap (λ r. get client format c key r.1) sets
      ∙ got client format c key text v _
          (redis.get_set (cache_key c key) text c.expire s (sym (ap (λ r. r.0) sets) ∙ done)) dec
