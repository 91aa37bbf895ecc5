-- ===== src/Monitor.antt =====
-- The network monitor: monitor/decoder.c. A frame is the list of its
-- bytes, six at least; what is printed is kept as a list. Numbers of 16 bits wrap.
pub mod Acks
mod Tests
use filestick.Base.{
  ℕ, zero, suc, ◌+◌, ◌-◌, ◌*◌, ◌/◌, ◌%◌, ◌^◌, ◌≤◌, ◌<◌, min, max, bit_and, bit_or, bit_xor, ◌≡◌,
  refl, sym, ap, ap₂, ◌∙◌, fun_ext, ◌≢◌, ◌↔◌, ◌⊎◌, inl, inr, Bool, true, false, not, ◌&&◌, ◌||◌,
  Option, none, some, List, [], ◌∷◌, ◌++◌, map, append-nil, append_assoc, arith, ltb, leb, ◌==◌,
  if◌then◌else◌, ltb→lt, lt→ltb, leb→le, ==_iff, tests, Bool-cases, Option-cases, length, get_elem?,
  get_elem?-lt, get_elem?_of_lt, get_elem?-none, set, length-append, length-set, get_elem?-set_self,
  get_elem?-set_ne, set-set, get_or, take, drop, replicate, take-set_end, take-set_ge, take-take,
  take_all, take-append_self, take-append-take, take-append_left, drop-append_left,
  drop-append_self, drop-drop, take-append-drop, length-take, length-drop, length-replicate,
  length-map, Errno, enoent, eio, enoexec, ebadf, enomem, eexist, einval, enfile, emfile, espipe,
  erofs, emsgsize, edestaddrreq, ehostunreach, etimedout, efatfs, Ret, val, err,
}
use filestick.Base.Text.{str_eq}

abbrev pub scout_len : ℕ
scout_len = 8

abbrev pub immscout_len : ℕ
immscout_len = 10

abbrev pub ack_len : ℕ
ack_len = 6

abbrev pub first_imm : ℕ
first_imm = 0x81

abbrev pub last_imm : ℕ
last_imm = 0x89

-- A line that is printed. An immediate operation is shown with its index in `imm_ops`, if it has
-- one; a data frame with the bytes that are dumped.
pub data Printed : Type 0 where
  address : ℕ → ℕ → ℕ → ℕ → Printed
  acks_received : ℕ → Printed
  ack : ℕ → ℕ → Printed
  scout : ℕ → ℕ → Printed
  imm : ℕ → Option ℕ → Printed
  data_frame : ℕ → List ℕ → Printed
  bcast : ℕ → ℕ → Printed

pub record Decoder : Type 0 where
  pub lastack : List ℕ
  pub ack_count : ℕ
  pub printed : List Printed

abbrev pub zero_ack : List ℕ
zero_ack = 0 ∷ 0 ∷ 0 ∷ 0 ∷ []

unfoldable pub decode_address : List ℕ → Printed
decode_address buf = address (get_or buf 3 0) (get_or buf 2 0) (get_or buf 1 0) (get_or buf 0 0)

unfoldable pub decode_scout : List ℕ → Printed
decode_scout buf = scout (get_or buf 0 0) (get_or buf 1 0)

unfoldable pub decode_immscout : List ℕ → Printed
decode_immscout buf =
    let op = get_or buf 0 0 in
    imm op (if leb first_imm op && leb op last_imm then some (op - first_imm) else none)

unfoldable pub decode_data : List ℕ → ℕ → Printed
decode_data buf len = data_frame len (take (if ltb 256 len then 256 else len) buf)

unfoldable pub decode_bcast : List ℕ → Printed
decode_bcast buf = bcast (get_or buf 0 0) (get_or buf 1 0)

abbrev pub print_all : List Printed → Decoder → Decoder
print_all ps s = record s { printed = s.printed ++ ps }

-- The count of the repeated acknowledgements, when another frame comes.
unfoldable pub end_acks : Decoder → Decoder
end_acks s =
    if s.ack_count == 0
    then s
    else let ps =
        if ltb 1 s.ack_count
        then decode_address s.lastack ∷ acks_received s.ack_count ∷ []
        else [] in
      record s { lastack = zero_ack; ack_count = 0; printed = s.printed ++ ps }

unfoldable pub decode_ack : List ℕ → Decoder → Decoder
decode_ack buf s =
    if str_eq s.lastack (take 4 buf)
    then record s { ack_count = (s.ack_count + 1) % 2 ^ 16 }
    else record s {
      lastack = take 4 buf;
      ack_count = 0;
      printed = s.printed ++ decode_address buf ∷ ack (get_or buf 4 0) (get_or buf 5 0) ∷ [];
    }

-- The frames that are not acknowledgements.
unfoldable pub decode_other : List ℕ → Decoder → Decoder
decode_other buf s =
    let n = length buf in
    let what =
      if n == scout_len
      then decode_scout (drop 4 buf)
      else if n == immscout_len
      then decode_immscout (drop 4 buf)
      else if get_or buf 0 0 == 0
      then decode_bcast (drop 4 buf)
      else decode_data (drop 4 buf) (n - 4) in
    print_all (decode_address buf ∷ what ∷ []) s

unfoldable pub decode_frame : List ℕ → Decoder → Decoder
decode_frame buf s =
    if length buf == ack_len then decode_ack buf s else decode_other buf (end_acks s)

-- One frame after the other.
abbrev pub decode_frames : List (List ℕ) → Decoder → Decoder
decode_frames [] s = s
decode_frames (f ∷ fs) s = decode_frames fs (decode_frame f s)
