-- ===== src/Redisx/Flight/Text.antt =====
-- redisx/singleFlight.go: one way to write items as texts that can be read back, to stand for JSON in tests. Each
-- character of a text stands behind an `a`, and a `b` ends the text.
use Prim.Native.Char.{code}
use g_micor.Base.{◌≡◌, refl, ap, String, str_eq, Option, none, some, ◌==◌, if◌then◌else◌}
use g_micor.Errorx.{ErrorCode}
use g_micor.Redisx.Flight.{CacheItem, Json}

unfoldable pub packed : String → String → String
packed String.[] rest = String.◌∷◌ "b" rest
packed (String.◌∷◌ c s) rest = String.◌∷◌ "a" (String.◌∷◌ c (packed s rest))

unfoldable pub unpacked : String → String × String
unpacked String.[] = ("", "")
unpacked (String.◌∷◌ mark String.[]) = ("", "")
unpacked (String.◌∷◌ mark (String.◌∷◌ c s)) =
    let (text, rest) = unpacked s in
    if code mark == b'a' then (String.◌∷◌ c text, rest) else ("", String.◌∷◌ c s)

unpacked-packed : (s rest : String) → unpacked (packed s rest) ≡ (s, rest)
unfolding packed unpacked
unpacked-packed String.[] String.[] = refl
unpacked-packed String.[] (String.◌∷◌ c rest) = refl
unpacked-packed (String.◌∷◌ c s) rest = ap (λ p. (String.◌∷◌ c p.0, p.1)) (unpacked-packed s rest)

unfoldable pub write_option : Option String → String
write_option none = packed "none" ""
write_option (some s) = packed "some" (packed s "")

unfoldable pub read_option : String → Option String
read_option s =
    let (flag, rest) = unpacked s in if str_eq flag "none" then none else some (unpacked rest).0

read_option-write_option : (o : Option String) → read_option (write_option o) ≡ o
unfolding read_option write_option
read_option-write_option none = simp unpacked-packed
read_option-write_option (some s) = simp unpacked-packed

unfoldable pub write_code : Option (ErrorCode String) → String
write_code none = packed "none" ""
write_code (some e) =
    packed "some" (packed e.model (packed e.code (packed e.msg (write_option e.details))))

unfoldable pub read_fields : String → ErrorCode String
read_fields s =
    let (model, s1) = unpacked s in
    let (code, s2) = unpacked s1 in
    let (msg, s3) = unpacked s2 in
    record { model = model; code = code; msg = msg; details = read_option s3 }

unfoldable pub read_code : String → Option (ErrorCode String)
read_code s =
    let (flag, rest) = unpacked s in if str_eq flag "none" then none else some (read_fields rest)

read_code-write_code : (o : Option (ErrorCode String)) → read_code (write_code o) ≡ o
unfolding read_code write_code read_fields
read_code-write_code none = simp unpacked-packed
read_code-write_code (some e) = simp (unpacked-packed, read_option-write_option)

unfoldable pub marshal : CacheItem String String → String
marshal item = packed item.value (packed item.sys_error (write_code item.bu_error))

unfoldable pub unmarshal : String → CacheItem String String × Option String
unmarshal s =
    let (value, s1) = unpacked s in
    let (sys_error, s2) = unpacked s1 in
    (record { value = value; bu_error = read_code s2; sys_error = sys_error }, none)

pub lossless : (item : CacheItem String String) → unmarshal (marshal item) ≡ (item, none)
unfolding unmarshal marshal
lossless item = simp (unpacked-packed, read_code-write_code)

abbrev pub text_json : Json String String
text_json = record {
  marshal = marshal;
  unmarshal = unmarshal;
  error_json = λ e. "{}";
  zero_value = "";
}
