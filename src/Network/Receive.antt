-- ===== src/Network/Receive.antt =====
-- `Connection::receive_packet` of tower/network/connection.cpp. The two reads of the socket are arguments: the length
-- that `flatbuffers::GetSizePrefixedBufferLength` finds in the header, and the body of a given size; `none` is an error.
use tower_main.Common.{
  ℕ, ◌+◌, ◌-◌, ◌%◌, ◌^◌, ◌≤◌, ◌<◌, ◌≡◌, refl, ◌⊎◌, inl, inr, ◌||◌, ltb, if◌then◌else◌, List, Option,
  none, some, ◌==◌, nat_eq, Option-cases, arith,
}

-- `throws` is the `std::length_error` of a vector that is too long.
pub data Received : Type 0 where
  disconnects throws : Received
  delivers : (body : List ℕ) → Received

abbrev pub size_prefix_bytes : ℕ
size_prefix_bytes = 4

-- `std::vector<uint8_t>::max_size()`, with a `ptrdiff_t` of 64 bits.
abbrev pub max_size : ℕ
max_size = 2 ^ 63 - 1

abbrev pub deliver : Option (List ℕ) → Received
deliver none = disconnects
deliver (some body) = delivers body

-- `std::vector<uint8_t> body_buffer(length - PACKET_SIZE_PREFIX_BYTES)`, whose size is a `size_t`, and the second read.
unfoldable pub read_into_body : (ℕ → Option (List ℕ)) → ℕ → Received
read_into_body read_body length =
    let size = (length + 2 ^ 64 - size_prefix_bytes) % 2 ^ 64 in
    if ltb max_size size then throws else deliver (read_body size)

unfoldable pub receive_packet : Option ℕ → (ℕ → Option (List ℕ)) → Received
unfolding read_into_body
receive_packet none read_body = disconnects
receive_packet (some length) read_body =
    if ltb 65536 length || length == 0 then disconnects else read_into_body read_body length

-- What the receipt of a packet should come to, by what the two reads give.
pub data Receives (header : Option ℕ) (read_body : ℕ → Option (List ℕ)) (r : Received)
    : Type 0 where
  no_header : header ≡ none → r ≡ disconnects → Receives header read_body r
  refused :
      (length : ℕ)
      → header ≡ some length
      → (length ≡ 0) ⊎ (65536 < length)
      → r ≡ disconnects
      → Receives header read_body r
  wraps :
      (length : ℕ)
      → header ≡ some length
      → 1 ≤ length
      → length ≤ 3
      → r ≡ throws
      → Receives header read_body r
  no_body :
      (length : ℕ)
      → header ≡ some length
      → 4 ≤ length
      → length ≤ 65536
      → read_body (length - 4) ≡ none
      → r ≡ disconnects
      → Receives header read_body r
  whole :
      (length : ℕ) (body : List ℕ)
      → header ≡ some length
      → 4 ≤ length
      → length ≤ 65536
      → read_body (length - 4) ≡ some body
      → r ≡ delivers body
      → Receives header read_body r

sizes :
    (length : ℕ)
    → ((length ≡ 0) ⊎ (65536 < length))
      ⊎ ((1 ≤ length) × (length ≤ 3))
      ⊎ ((4 ≤ length) × (length ≤ 65536))
sizes length = ground arith

-- `receive_packet` disconnects if the header cannot be read, or has a length of 0 or above 65536; throws on a length from 1
-- to 3, whose difference wraps around; and on a length from 4 to 65536 reads a body of 4 bytes less, delivers it if it
-- can be read and disconnects if not.
pub receive_packet-cases :
    (header : Option ℕ) (read_body : ℕ → Option (List ℕ))
    → Receives header read_body (receive_packet header read_body)
unfolding receive_packet
receive_packet-cases none read_body = no_header refl refl
receive_packet-cases (some length) read_body = elim (sizes length) [
  | inl out ↦ refused length refl out (ground arith)
  | inr (inl small) ↦ wraps length refl small.0 small.1 (ground arith)
  | inr (inr fits) ↦ elim (Option-cases (read_body (length - 4))) [
    | inl cut ↦ no_body length refl fits.0 fits.1 cut (ground arith)
    | inr (body, read) ↦ whole length body refl fits.0 fits.1 read (ground arith)
  ]
]
