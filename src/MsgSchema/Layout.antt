-- ===== src/MsgSchema/Layout.antt =====
-- That the descriptions of cpp/tools/msg_schema.hpp agree with the structs they stand for.
use Prim.Native.String.{String}
use text.Mathlib.Text.{◌==◌ as str_eq}
use text.Mathlib.TextEquality.{eq_iff}
use relink_com.Base.{
  ℕ, ◌+◌, ◌*◌, ◌≤◌, ◌≡◌, ◌≢◌, refl, sym, ap, ◌∙◌, arith, Bool, true, false, ◌&&◌, Bool-cases, inl,
  inr, Option, some, List, [], ◌∷◌, ◌==◌, leb, some_injective,
}
use relink_com.Frame.{max_payload_bytes}
use relink_com.MsgSchema.{
  TypeDesc, Fields, type_desc, no_fields, scalar, char_str, char_str_array, num_array, struct_field,
  struct_array, num_size, type_name, type_size, rms_type, rms_scalar, rms_numarr, rms_str,
  rms_strarr, rms_struct, rms_structarr,
}
use relink_com.StdMsgs.{sizeof, offset_of, member_of, member_size}
use relink_com.MsgSchema.Registry.{
  all_types, named_in, of_size, find_types_by_size, find_type_by_name,
}

-- The fields lie one behind the other from `at` to the end of the message, and so do those of nested messages.
unfoldable mutual
  pub tiles : TypeDesc → Bool
  tiles (type_desc name size fs) = fields_tile 0 size fs

  pub fields_tile : ℕ → ℕ → Fields → Bool
  fields_tile at size no_fields = at == size
  fields_tile at size (scalar f off k rest) = (off == at) && fields_tile (at + num_size k) size rest
  fields_tile at size (char_str f off n rest) = (off == at) && fields_tile (at + n) size rest
  fields_tile at size (char_str_array f off count n rest) =
      (off == at) && fields_tile (at + count * n) size rest
  fields_tile at size (num_array f off count k rest) =
      (off == at) && fields_tile (at + count * num_size k) size rest
  fields_tile at size (struct_field f off n t rest) =
      (off == at) && ((type_size t == n) && (tiles t && fields_tile (at + n) size rest))
  fields_tile at size (struct_array f off count n t rest) =
      (off == at) && ((type_size t == n) && (tiles t && fields_tile (at + count * n) size rest))

unfoldable pub is_sound : TypeDesc → Bool
is_sound t = tiles t && leb (type_size t) max_payload_bytes

unfoldable every : (TypeDesc → Bool) → List TypeDesc → Bool
every p [] = true
every p (t ∷ ts) = p t && every p ts

registry_sound : every is_sound all_types ≡ true
unfolding every is_sound tiles rms_type rms_scalar rms_numarr rms_str rms_strarr rms_struct
    rms_structarr num_size type_size sizeof offset_of member_of member_size
registry_sound = refl

named_in-every :
    (p : TypeDesc → Bool) (name : String) (ts : List TypeDesc) (t : TypeDesc)
    → named_in name ts ≡ some t
    → every p ts ≡ true
    → (type_name t ≡ name) × (p t ≡ true)
unfolding named_in every
named_in-every p name [] t found all = cc
named_in-every p name (u ∷ us) t found all = elim (Bool-cases (str_eq name (type_name u))) [
  | inl same ↦ by_name (some_injective (rw same at found)) same
  | inr other ↦ named_in-every p name us t (rw other at found) (ground (arith, all))
]
  where
    by_name : u ≡ t → str_eq name (type_name u) ≡ true → (type_name t ≡ name) × (p t ≡ true)
    by_name e same = (
      ap type_name (sym e) ∙ sym ((eq_iff name (type_name u)).0 same),
      ap p (sym e) ∙ ground (arith, all),
    )

-- A type that find_type_by_name finds has that name, its fields and those of the messages in it lie one behind the
-- other without gaps up to the end, and it fits into the payload of one frame.
pub find_type_by_name_layout :
    (name : String) (t : TypeDesc)
    → find_type_by_name name ≡ some t
    → (type_name t ≡ name) × ((tiles t ≡ true) × (type_size t ≤ max_payload_bytes))
unfolding find_type_by_name is_sound
find_type_by_name_layout name t found =
    let (same, sound) = named_in-every is_sound name all_types t found registry_sound in
    (same, (ground (arith, sound), ground (arith, sound)))

named_in-of_size :
    (name : String) (ts : List TypeDesc) (t : TypeDesc)
    → named_in name ts ≡ some t
    → of_size (type_size t) ts ≢ []
unfolding named_in of_size
named_in-of_size name [] t found none_left = cc
named_in-of_size name (u ∷ us) t found none_left = elim (Bool-cases (str_eq name (type_name u))) [
  | inl same ↦ kept (ground (arith, ap type_size (some_injective (rw same at found))))
  | inr other ↦ elim (Bool-cases (type_size u == type_size t)) [
    | inl fits ↦ kept fits
    | inr no_fit ↦ named_in-of_size name us t (rw other at found) (rw no_fit at none_left)
  ]
]
  where
    kept : (type_size u == type_size t) ≡ true → ⊥
    kept fits = cc (rw fits at none_left)

unique_by_size :
    (name : String) (ts : List TypeDesc) (size : ℕ) (t u : TypeDesc)
    → of_size size ts ≡ t ∷ []
    → named_in name ts ≡ some u
    → type_size u ≡ size
    → u ≡ t
unfolding of_size named_in
unique_by_size name [] size t u single found fits = cc
unique_by_size name (v ∷ vs) size t u single found fits = elim (Bool-cases (type_size v == size)) [
  | inl here ↦ elim (Bool-cases (str_eq name (type_name v))) [
    | inl same ↦ let first = rw here at single in let named = rw same at found in cc
    | inr other ↦
        absurd (named_in-of_size name vs u (rw other at found) (rw fits (tail_empty here)))
  ]
  | inr gone ↦ elim (Bool-cases (str_eq name (type_name v))) [
    | inl same ↦ absurd (not_first gone (rw same at found))
    | inr other ↦ unique_by_size name vs size t u (rw gone at single) (rw other at found) fits
  ]
]
  where
    tail_empty : (type_size v == size) ≡ true → of_size size vs ≡ []
    tail_empty here = let first = rw here at single in cc

    not_first : (type_size v == size) ≡ false → ◌≡◌ {A = Option TypeDesc} (some v) (some u) → ⊥
    not_first gone e = ground (arith, ap type_size (some_injective e))

-- A type that find_types_by_size finds alone for a size is the only one of that size that any name finds.
pub find_types_by_size_unique :
    (name : String) (size : ℕ) (t u : TypeDesc)
    → find_types_by_size size ≡ t ∷ []
    → find_type_by_name name ≡ some u
    → type_size u ≡ size
    → u ≡ t
unfolding find_types_by_size find_type_by_name
find_types_by_size_unique name size t u single found fits =
    unique_by_size name all_types size t u single found fits
