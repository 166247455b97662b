-- ===== src/Pcap/Fields.antt =====
-- minarx/pcap.py: the texts that tshark prints for the fields of a packet. A text is the list of
-- its character codes.
use hndl_dev.Prelude.{
  ℕ, ◌+◌, ◌-◌, ◌*◌, ◌&&◌, Option, none, some, List, [], ◌∷◌, leb, ◌==◌, if◌then◌else◌,
}
use hndl_dev.Binary.{Bytes}

abbrev pub Text : Type 0
Text = List ℕ

abbrev pub comma : ℕ
comma = 44

abbrev pub colon : ℕ
colon = 58

-- `text.split(",")[0]`
unfoldable pub first_part : Text → Text
first_part [] = []
first_part (c ∷ cs) = if c == comma then [] else c ∷ first_part cs

-- `text.replace(":", "")`
unfoldable pub without_colons : Text → Text
without_colons [] = []
without_colons (c ∷ cs) = if c == colon then without_colons cs else c ∷ without_colons cs

unfoldable pub digits_value : ℕ → Text → Option ℕ
digits_value value [] = some value
digits_value value (c ∷ cs) =
    let rest = digits_value (value * 10 + (c - 48)) cs in
    if leb 48 c && leb c 57 then rest else none

-- `int(text)` on decimal digits, which is how tshark prints an unsigned field. `none` is
-- `ValueError`.
unfoldable pub parse_int : Text → Option ℕ
parse_int [] = none
parse_int (c ∷ cs) = digits_value 0 (c ∷ cs)

unfoldable pub hex_digit : ℕ → Option ℕ
hex_digit c =
    if leb 48 c && leb c 57
    then some (c - 48)
    else if leb 97 c && leb c 102
    then some (c - 87)
    else if leb 65 c && leb c 70
    then some (c - 55)
    else none

abbrev pub hex_pair : Option ℕ → Option ℕ → Option Bytes → Option Bytes
hex_pair (some h) (some l) (some bytes) = some ((h * 16 + l) ∷ bytes)
hex_pair (some h) (some l) none = none
hex_pair (some h) none rest = none
hex_pair none l rest = none

-- `binascii.unhexlify`; `none` is `binascii.Error`.
unfoldable pub unhexlify : Text → Option Bytes
unhexlify [] = some []
unhexlify (c ∷ []) = none
unhexlify (c ∷ d ∷ cs) = hex_pair (hex_digit c) (hex_digit d) (unhexlify cs)

-- `1 if src == server_port else 0 if dst == server_port else -1`; `none` is -1.
unfoldable pub direction_of : ℕ → ℕ → ℕ → Option ℕ
direction_of server_port src dst =
    if src == server_port then some 1 else if dst == server_port then some 0 else none
