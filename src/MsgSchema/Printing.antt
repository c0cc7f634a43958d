-- ===== src/MsgSchema/Printing.antt =====
-- Printing of messages by cpp/tools/msg_schema.hpp reads only the message.
use Prim.Native.String.{String}
use relink_com.Base.{
  ℕ, zero, suc, ◌+◌, ◌*◌, ◌≤◌, ◌<◌, ◌≡◌, refl, arith, true, Option, some, List, [], ◌∷◌, ◌++◌, ◌==◌,
  leb, if◌then◌else◌, take, drop, length, replicate,
}
use relink_com.MsgSchema.{
  Num, TypeDesc, Fields, type_desc, no_fields, scalar, char_str, char_str_array, num_array,
  struct_field, struct_array, num_size, type_size, read, joined, label, then_rest,
  newline_unless_last, number_text, string_text, bracketed, assigned, below_label, numbered,
  decimal, to_string, quoted, format_message, format_fields, codes,
}
use relink_com.MsgSchema.Layout.{tiles, fields_tile, find_type_by_name_layout}
use native.Mathlib.Nat.{mul-le-mul_right}
use relink_com.MsgSchema.Registry.{find_type_by_name}

-- A text comes out.
abbrev pub Printed : Option (List ℕ) → Type 0
Printed r = (text : List ℕ) × (r ≡ some text)

read-Printed : (bytes : List ℕ) (at n : ℕ) → at + n ≤ length bytes → Printed (read bytes at n)
unfolding read
read-Printed bytes at n fits = (take n (drop at bytes), rw (the_test) refl)
  where
    the_test : leb (at + n) (length bytes) ≡ true
    the_test = ground arith

joined-Printed :
    (sep : List ℕ) (count j : ℕ) (f : ℕ → Option (List ℕ))
    → ((i : ℕ) → j ≤ i → i < j + count → Printed (f i))
    → Printed (joined sep count j f)
unfolding joined
joined-Printed sep zero j f all = ([], refl)
joined-Printed sep (suc count) j f all =
    let (text, e) = all j (omega arith) (omega arith) in
    let (rest, e') =
      joined-Printed sep count (suc j) f (λ i lo hi. all i (omega arith) (omega arith)) in
    (text ++ (if count == 0 then [] else sep) ++ rest, rw (e, e') refl)

then_rest-Printed :
    (head : List ℕ) (fs : Fields) (value more : Option (List ℕ))
    → Printed value
    → Printed more
    → Printed (then_rest head fs value more)
unfolding then_rest
then_rest-Printed head fs value more (v, e) (m, e') =
    (head ++ v ++ newline_unless_last fs ++ m, rw (e, e') refl)

-- What one text becomes between others.
assigned-Printed : (r : Option (List ℕ)) → Printed r → Printed (assigned r)
unfolding assigned
assigned-Printed r (t, e) = (codes " = " ++ t, rw e refl)

bracketed-Printed : (r : Option (List ℕ)) → Printed r → Printed (bracketed r)
unfolding bracketed
bracketed-Printed r (t, e) = (codes " = [" ++ t ++ codes "]", rw e refl)

below_label-Printed : (r : Option (List ℕ)) → Printed r → Printed (below_label r)
unfolding below_label
below_label-Printed r (t, e) = (codes ":\n" ++ t, rw e refl)

numbered-Printed : (indent j : ℕ) (r : Option (List ℕ)) → Printed r → Printed (numbered indent j r)
unfolding numbered
numbered-Printed indent j r (t, e) =
    (replicate ((indent + 2) * 2) b' ' ++ codes "[" ++ decimal j ++ codes "]:\n" ++ t, rw e refl)

fields_tile-le : (at size : ℕ) (fs : Fields) → fields_tile at size fs ≡ true → at ≤ size
unfolding fields_tile
fields_tile-le at size no_fields h = ground (arith, h)
fields_tile-le at size (scalar f off k rest) h =
    grind (arith, fields_tile-le (at + num_size k) size rest (ground (arith, h)))
fields_tile-le at size (char_str f off n rest) h =
    grind (arith, fields_tile-le (at + n) size rest (ground (arith, h)))
fields_tile-le at size (char_str_array f off count n rest) h =
    grind (arith, fields_tile-le (at + count * n) size rest (ground (arith, h)))
fields_tile-le at size (num_array f off count k rest) h =
    grind (arith, fields_tile-le (at + count * num_size k) size rest (ground (arith, h)))
fields_tile-le at size (struct_field f off n t rest) h =
    grind (arith, fields_tile-le (at + n) size rest (ground (arith, h)))
fields_tile-le at size (struct_array f off count n t rest) h =
    grind (arith, fields_tile-le (at + count * n) size rest (ground (arith, h)))

-- An element of an array ends inside the array.
element-le : (count n j : ℕ) → j < count → j * n + n ≤ count * n
element-le count n j lt = omega (arith, mul-le-mul_right {m = suc j} {n = count} n lt)

module _ (show_float : List ℕ → List ℕ) (bytes : List ℕ) where
  number_text-Printed :
      (at : ℕ) (k : Num)
      → at + num_size k ≤ length bytes
      → Printed (number_text show_float bytes at k)
  unfolding number_text
  number_text-Printed at k fits =
      let (field, e) = read-Printed bytes at (num_size k) fits in
      (to_string show_float k field, rw e refl)

  string_text-Printed :
      (at n : ℕ) → at + n ≤ length bytes → Printed (string_text show_float bytes at n)
  unfolding string_text
  string_text-Printed at n fits =
      let (field, e) = read-Printed bytes at n fits in (quoted field, rw e refl)

  mutual
    unfolding tiles fields_tile format_message type_size

    format_message-Printed :
        (t : TypeDesc) (at indent : ℕ)
        → tiles t ≡ true
        → at + type_size t ≤ length bytes
        → Printed (format_message show_float bytes t at indent)
    format_message-Printed (type_desc name size fs) at indent h fits =
        format_fields-Printed fs at 0 size indent h fits

    format_fields-Printed :
        (fs : Fields) (at cur size indent : ℕ)
        → fields_tile cur size fs ≡ true
        → at + size ≤ length bytes
        → Printed (format_fields show_float bytes fs at indent)
    format_fields-Printed no_fields at cur size indent h fits = ([], refl)
    format_fields-Printed (scalar f off k rest) at cur size indent h fits =
        let more =
          format_fields-Printed rest at (cur + num_size k) size indent (ground (arith, h)) fits in
        let inside = fields_tile-le (cur + num_size k) size rest (ground (arith, h)) in
        then_rest-Printed (label indent f) rest _ _
          (assigned-Printed _ (number_text-Printed (at + off) k (ground (arith, h, inside)))) more
    format_fields-Printed (char_str f off n rest) at cur size indent h fits =
        let more = format_fields-Printed rest at (cur + n) size indent (ground (arith, h)) fits in
        let inside = fields_tile-le (cur + n) size rest (ground (arith, h)) in
        then_rest-Printed (label indent f) rest _ _
          (assigned-Printed _ (string_text-Printed (at + off) n (ground (arith, h, inside)))) more
    format_fields-Printed (char_str_array f off count n rest) at cur size indent h fits =
        let more =
          format_fields-Printed rest at (cur + count * n) size indent (ground (arith, h)) fits in
        let inside = fields_tile-le (cur + count * n) size rest (ground (arith, h)) in
        then_rest-Printed (label indent f) rest _ _
          (bracketed-Printed _ (
            joined-Printed (codes ", ") count 0 _ (λ j lo hi.
              string_text-Printed (at + off + j * n) n
                (ground (arith, h, inside, element-le count n j (omega arith))))))
          more
    format_fields-Printed (num_array f off count k rest) at cur size indent h fits =
        let more =
          format_fields-Printed rest at (cur + count * num_size k) size indent (ground (arith, h))
            fits in
        let inside = fields_tile-le (cur + count * num_size k) size rest (ground (arith, h)) in
        then_rest-Printed (label indent f) rest _ _
          (bracketed-Printed _ (
            joined-Printed (codes ", ") count 0 _ (λ j lo hi.
              number_text-Printed (at + off + j * num_size k) k
                (ground (arith, h, inside, element-le count (num_size k) j (omega arith))))))
          more
    format_fields-Printed (struct_field f off n t rest) at cur size indent h fits =
        let more = format_fields-Printed rest at (cur + n) size indent (ground (arith, h)) fits in
        let inside = fields_tile-le (cur + n) size rest (ground (arith, h)) in
        then_rest-Printed (label indent f) rest _ _
          (below_label-Printed _ (
            format_message-Printed t (at + off) (indent + 1) (ground (arith, h))
              (ground (arith, h, inside))))
          more
    format_fields-Printed (struct_array f off count n t rest) at cur size indent h fits =
        let more =
          format_fields-Printed rest at (cur + count * n) size indent (ground (arith, h)) fits in
        let inside = fields_tile-le (cur + count * n) size rest (ground (arith, h)) in
        then_rest-Printed (label indent f) rest _ _
          (below_label-Printed _ (
            joined-Printed (b'\n' ∷ []) count 0 _ (λ j lo hi. numbered-Printed indent j _ (
              format_message-Printed t (at + off + j * n) (indent + 2) (ground (arith, h))
                (ground (arith, h, inside, element-le count n j (omega arith)))))))
          more

-- A message of a registered type, in a buffer of exactly the type's size, is printed without a read outside of the
-- buffer, whatever its bytes are and whatever text std::to_string makes of a float.
pub format_message-find_type :
    (show_float : List ℕ → List ℕ) (name : String) (t : TypeDesc) (bytes : List ℕ) (indent : ℕ)
    → find_type_by_name name ≡ some t
    → length bytes ≡ type_size t
    → Printed (format_message show_float bytes t 0 indent)
format_message-find_type show_float name t bytes indent found size =
    let (same, (tiled, fits)) = find_type_by_name_layout name t found in
    format_message-Printed show_float bytes t 0 indent tiled (omega arith)
