-- ===== src/ServerStage/Wal.antt =====
-- internal/server/stage/wal.go: the file of the write-ahead log, as the bytes that it holds, and the
-- replay of its frames.
pub mod Crash
use leyline.Base.{
  Bool, List, Option, Text, [], drop, false, if◌then◌else◌, is_empty, keep, length, ltb, map, none,
  not, replicate, some, suc, take, true, zero, ℕ, ◌%◌, ◌*◌, ◌++◌, ◌+◌, ◌/◌, ◌==◌, ◌^◌, ◌∷◌,
}

-- hash/crc32, on words of 32 bits, the lowest bit first.
xor_bits : List Bool → List Bool → List Bool
xor_bits [] bs = []
xor_bits (a ∷ as') [] = a ∷ as'
xor_bits (a ∷ as') (b ∷ bs) = (if a then not b else b) ∷ xor_bits as' bs

bits : ℕ → ℕ → List Bool
bits zero n = []
bits (suc w) n = (n % 2 == 1) ∷ bits w (n / 2)

abbrev polynomial : List Bool
polynomial = bits 32 0xEDB88320

crc_bit : List Bool → List Bool
unfolding xor_bits bits
crc_bit [] = []
crc_bit (b ∷ s) = if b then xor_bits (s ++ false ∷ []) polynomial else s ++ false ∷ []

crc_byte : List Bool → ℕ → List Bool
unfolding crc_bit
crc_byte s b =
    crc_bit
      (crc_bit (crc_bit (crc_bit (crc_bit (crc_bit (crc_bit (crc_bit (xor_bits s (bits 8 b)))))))))

crc_from : List Bool → Text → List Bool
unfolding crc_byte
crc_from s [] = s
crc_from s (b ∷ p) = crc_from (crc_byte s b) p

number_of : List Bool → ℕ
number_of [] = 0
number_of (b ∷ s) = (if b then 1 else 0) + 2 * number_of s

-- crc32.ChecksumIEEE
unfoldable pub checksum_ieee : Text → ℕ
unfolding crc_from number_of
checksum_ieee p = number_of (map not (crc_from (replicate 32 true) p)) % 2 ^ 32

-- binary.BigEndian.PutUint32 of a number, before the bytes that follow.
unfoldable pub put_uint32 : ℕ → Text → Text
put_uint32 n after = (n / 2 ^ 24) % 256 ∷ (n / 2 ^ 16) % 256 ∷ (n / 2 ^ 8) % 256 ∷ n % 256 ∷ after

-- binary.BigEndian.Uint32 of the four bytes at an offset.
uint32 : Text → ℕ
uint32 (a ∷ b ∷ c ∷ d ∷ s) = a * 2 ^ 24 + b * 2 ^ 16 + c * 2 ^ 8 + d
uint32 s = 0

abbrev pub frame_hdr_size : ℕ
frame_hdr_size = 8

abbrev pub max_wal_payload_len : ℕ
max_wal_payload_len = 15 * 2 ^ 20

unfoldable pub make_frame : Text → Text
make_frame payload =
    put_uint32 (length payload % 2 ^ 32) (put_uint32 (checksum_ieee payload) payload)

-- The reasons of a `ReplayError`, without the offset.
pub data ReplayError : Type 0 where
  truncated_header payload_too_long truncated_payload crc_mismatch cbor_decode : ReplayError

-- `encode` and `decode` are the CBOR encoding of an entry.
module _ {Entry : Type 0} (encode : Entry → Option Text) (decode : Text → Option Entry) where
  append_frame : Text → Option Text → Option Text
  append_frame file none = none
  append_frame file (some payload) = some (file ++ make_frame payload)

  -- `Append`, where the write and the fsync succeed; `none` is the error of the encoding.
  unfoldable pub append_entry : Text → Entry → Option Text
  unfolding append_frame
  append_entry file e = append_frame file (encode e)

  abbrev pub Replayed : Type 0
  Replayed = List Entry × Option ReplayError

  with_entry : Option Entry → Replayed → Replayed
  with_entry none rest = ([], some cbor_decode)
  with_entry (some e) rest = (e ∷ rest.0, rest.1)

  -- The loop of `replayFrom`. A round reads at least a header, so the length of the file is enough
  -- fuel, and the fuel runs out on an empty file only.
  unfoldable pub replay_rounds : ℕ → Text → Replayed
  unfolding with_entry uint32
  replay_rounds zero s = ([], none)
  replay_rounds (suc fuel) s =
      let payload_len = uint32 s in
      let body = drop frame_hdr_size s in
      let rest = replay_rounds fuel (drop payload_len body) in
      if is_empty s
      then ([], none)
      else if ltb (length s) frame_hdr_size
      then ([], some truncated_header)
      else if ltb max_wal_payload_len payload_len
      then ([], some payload_too_long)
      else if ltb (length body) payload_len
      then ([], some truncated_payload)
      else if not (checksum_ieee (take payload_len body) == uint32 (drop 4 s))
      then ([], some crc_mismatch)
      else with_entry (decode (take payload_len body)) rest

  -- `Replay`
  unfoldable pub replay : Text → Replayed
  unfolding replay_rounds
  replay file = replay_rounds (length file) file

  -- The file that `TruncateClient` writes, where no encoding fails.
  abbrev frame_of : Option Text → Text
  frame_of none = []
  frame_of (some payload) = make_frame payload

  unfoldable pub frames : List Entry → Text
  frames [] = []
  frames (e ∷ es) = frame_of (encode e) ++ frames es

  unfoldable pub truncate_file : (Entry → Bool) → Text → Text
  unfolding frames replay
  truncate_file is_client file = frames (keep (λ e. not (is_client e)) (replay file).0)
