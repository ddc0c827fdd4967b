-- ===== src/Redisx/Cacher.antt =====
-- redisx/simpleCacher.go, redisx/jsonCacher.go and redisx/cacher.go: the three cachers, which differ in how
-- a value becomes bytes; and the operations of redisx/operation.go that they stand on.
pub mod Laws
use Prim.Native.String.{◌++◌ as append}
use g_micor.Base.{
  ℕ, zero, suc, Bool, true, false, String, Option, none, some, List, [], ◌∷◌, if◌then◌else◌,
}
use g_micor.Base.Bytes.{Bytes}
use g_micor.Redisx.Simple.{
  SimpleType, SimpleValue, Floats, convert_simple_value, parse_simple_value,
}

-- What is asked of the Redis client, whose state is `S`: `none`, and `false` of `set`, are errors; a key
-- that is not there is one of `get`. `set` takes the expiry. `set_nx` tells whether it set.
pub record Client (S : Type 0) : Type 0 where
  pub get : String → S → Option Bytes
  pub set : String → Bytes → ℕ → S → Bool × S
  pub set_nx : String → Bytes → ℕ → S → Option Bool × S
  pub del : List String → S → Option ℕ × S

-- How values become bytes: of simple values, by `json`, or by `proto`. `none` is an error.
pub record Format (T : Type 0) : Type 0 where
  pub encode : T → Option Bytes
  pub decode : Bytes → Option T

abbrev pub simple_format : {F O : Type 0} → Floats F → SimpleType → Format (SimpleValue F O)
simple_format floats t = record {
  encode = convert_simple_value floats;
  decode = parse_simple_value floats t;
}

pub record Cacher : Type 0 where
  pub expire : ℕ
  pub prefix : String

-- `c.prefix + ":" + key.GenKey()`
abbrev pub cache_key : Cacher → String → String
cache_key c key = append c.prefix (append ":" key)

module _ {S T : Type 0} (client : Client S) (format : Format T) where
  -- `SetSimple`, `SetJSON` and `SetPorto`; whether it went well.
  unfoldable pub set_value : String → T → ℕ → S → Bool × S
  set_value key value expire s = elim (format.encode value) [
    | none ↦ (false, s)
    | some text ↦ client.set key text expire s
  ]

  -- `GetSimple`, `GetJSON` and `GetProto`
  unfoldable pub get_value : String → S → Option T
  get_value key s = elim (client.get key s) [ none ↦ none | some text ↦ format.decode text ]

  -- `SetNXSimple`, `SetNXJSON` and `SetNXProto`
  unfoldable pub set_nx_value : String → T → ℕ → S → Option Bool × S
  set_nx_value key value expire s = elim (format.encode value) [
    | none ↦ (none, s)
    | some text ↦ client.set_nx key text expire s
  ]

  module _ (c : Cacher) where
    unfoldable pub get : String → S → Option T
    unfolding get_value
    get key s = get_value (cache_key c key) s

    unfoldable pub set : String → T → S → Bool × S
    unfolding set_value
    set key value s = set_value (cache_key c key) value c.expire s

    unfoldable pub get_and_delete : String → S → Option T × S
    unfolding get_value
    get_and_delete key s = elim (get_value (cache_key c key) s) [
      | none ↦ (none, s)
      | some result ↦ (some result, (client.del (cache_key c key ∷ []) s).1)
    ]

    -- An error of `set` is passed over.
    unfoldable pub get_with_fallback : String → Option T → S → Option T × S
    unfolding get set
    get_with_fallback key fallback s = elim (get key s) [
      | some result ↦ (some result, s)
      | none ↦ elim fallback [
        | none ↦ (none, s)
        | some result ↦ (some result, (set key result s).1)
      ]
    ]

-- `Delete`
unfoldable pub delete_keys : {S : Type 0} → Client S → List String → S → Option ℕ × S
delete_keys client [] s = (some 0, s)
delete_keys client (key ∷ keys) s = client.del (key ∷ keys) s
