-- ===== src/Witnesses/Parameters.antt =====
-- Parameters, texts and versions, for the properties of TypedParams, Native/CString and Version.
use libvirt_go.Native.CString.{buffer, refused, make_c_string, make_c_string-c_string}
use libvirt_go.Prelude.{
  none, some, [], codes, ◌≡◌, ◌∷◌, true, arith, refl, index_byte, ◌≢◌, ◌⊎◌, Bytes,
}
use libvirt_go.Errors.{ok, embedded_nul}
use libvirt_go.Memory.{c_string}
use libvirt_go.TypedParams.{
  TypedParameter, normalize_all, int_v, int32_v, string_v, normalize, bad_field, type_or_inferred,
  infer_type, normalize_as, normalize_value, kind_of,
}
use libvirt_go.TypedParams.RoundTrip.{Encodes, encode_typed_parameters-Encodes}
use libvirt_go.Prelude.Int.{pos}
use libvirt_go.TypedParams.Marshal.{encode_typed_parameters}
use libvirt_go.TypedParams.Normal.{Normalizes, normalize-Normalizes, normalize-IsNormal}
use libvirt_go.Version.{number, decode_version, number-decode_version, decode_version-number}
use libvirt_go.Witnesses.{world_0, two_blocks-IsLawful, small_api}

abbrev cpu_shares : TypedParameter
cpu_shares = record { field = codes "cpu_shares"; type_ = pos 0; value = int_v (pos 1024) }

abbrev cpu_shares_normal : TypedParameter
cpu_shares_normal = record { field = codes "cpu_shares"; type_ = pos 1; value = int32_v (pos 1024) }

abbrev label : TypedParameter
label = record { field = codes "label"; type_ = pos 7; value = string_v (codes "web") }

encode_typed_parameters-Encodes_example :
    Encodes world_0
      (normalize_all (cpu_shares ∷ label ∷ []))
      (encode_typed_parameters small_api (cpu_shares ∷ label ∷ []) world_0)
encode_typed_parameters-Encodes_example =
    encode_typed_parameters-Encodes small_api two_blocks-IsLawful refl refl
      (cpu_shares ∷ label ∷ []) world_0 (omega arith, (tt, tt))

normalized : normalize cpu_shares ≡ ok cpu_shares_normal
unfolding normalize bad_field type_or_inferred infer_type normalize_as normalize_value kind_of
normalized = refl

normalize-Normalizes_example : Normalizes cpu_shares cpu_shares_normal
normalize-Normalizes_example = normalize-Normalizes cpu_shares (omega arith) normalized

normalize-IsNormal_example : normalize cpu_shares_normal ≡ ok cpu_shares_normal
normalize-IsNormal_example =
    normalize-IsNormal cpu_shares_normal
      (normalize-Normalizes cpu_shares (omega arith) normalized).normal

number-decode_version_example : number (decode_version 11_010_002) ≡ 11_010_002
number-decode_version_example = number-decode_version 11_010_002 (omega arith)

decode_version-number_example :
    decode_version (number (record { major = 11; minor = 10; release = 2 }))
    ≡ record { major = 11; minor = 10; release = 2 }
decode_version-number_example =
    decode_version-number (record { major = 11; minor = 10; release = 2 }) (omega arith)
      (omega arith) (omega arith)

make_c_string-c_string_example :
    (index_byte (codes "vm") 0 ≢ none)
      × (make_c_string "URI" (codes "vm") true ≡ refused (embedded_nul "URI"))
    ⊎ ((true ≡ true) × (codes "vm" ≡ []) × (make_c_string "URI" (codes "vm") true ≡ buffer none)
        ⊎ ((b : Bytes) × (make_c_string "URI" (codes "vm") true ≡ buffer (some b))
            × (c_string b ≡ some (codes "vm"))))
make_c_string-c_string_example = make_c_string-c_string "URI" (codes "vm") true
