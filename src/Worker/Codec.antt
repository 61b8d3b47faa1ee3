-- ===== src/Worker/Codec.antt =====
-- The argument codec: what is encoded is decoded, and what is decoded was encoded.
use mini_ray.Base.{
  data_too_short, Bool, refl, ◌++◌, ◌^◌, ◌<◌, err, ap, length, ℕ, false, ◌≡◌, sym,
  take-append_length, length-append, true, arith, ok, List, ltb,
}
use mini_ray.Codec.Endian.{uint-put_uint, put_uint, length-put_uint}
use mini_ray.Worker.{decode_bool, encode_int, decode_int, encode_bool}

-- An int of 64 bits is read back by DecodeInt from what EncodeInt wrote, whatever bytes follow it.
pub decode_int-encode_int :
    (v : ℕ) (more : List ℕ) → v < 2 ^ 64 → decode_int (encode_int v ++ more) ≡ ok v
unfolding decode_int encode_int
decode_int-encode_int v more h =
    let long : ltb (length (put_uint 8 v ++ more)) 8 ≡ false =
      ground (arith, length-append (put_uint 8 v) more, length-put_uint 8 v) in
    rw
      (
        long,
        take-append_length (put_uint 8 v) more 8 (sym (length-put_uint 8 v)),
        uint-put_uint 8 v,
      )
      (ap ok (omega arith))

decode_bool-encode_bool : (b : Bool) (more : List ℕ) → decode_bool (encode_bool b ++ more) ≡ ok b
unfolding decode_bool encode_bool
decode_bool-encode_bool true more = refl
decode_bool-encode_bool false more = refl

-- The decoding of an int fails exactly on fewer than eight bytes.
decode_int_short : (bytes : List ℕ) → length bytes < 8 → decode_int bytes ≡ err data_too_short
unfolding decode_int
decode_int_short bytes h = ground arith
