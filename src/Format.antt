-- ===== src/Format.antt =====
-- The formatters of the program. The library {fmt} is not part of it: `Fmt` has what the formatters use
-- of it, and `IsFmt` what its documentation says of that. A text is the list of its characters' codes.
pub mod Texts
pub mod Distinct
pub mod Tags
use Prim.Native.Char.{code}
use Prim.Native.String.{String}
use toad_jawbreaker.Prelude.{
  ℕ, ◌+◌, ◌^◌, ◌≡◌, ◌≤◌, ◌<◌, List, [], ◌∷◌, ◌++◌, Option, none, some, Outcome, returns, aborts,
  length, All, if◌then◌else◌, ◌==◌, ◌>>=◌,
}
use toad_jawbreaker.Nic.Typestate.{TypestateDirection}
use toad_jawbreaker.Nic.Arp.{Arp}
use toad_jawbreaker.Nic.Ip.{Ip}
use toad_jawbreaker.Nic.Icmp.{Icmp, echo_reply, echo_request}

-- `String` has its own `[]` and `∷`.
abbrev pub codes : String → List ℕ
codes String.[] = []
codes (String.◌∷◌ c s) = code c ∷ codes s

-- `{}` of an unsigned number, `{:0wX}` for a width w, and `{}` of a `const char *`, `none` being null.
pub record Fmt : Type 0 where
  pub decimal : ℕ → List ℕ
  pub hex : ℕ → ℕ → List ℕ
  pub c_string : Option (List ℕ) → Outcome (List ℕ)

abbrev pub IsDigit : ℕ → Type 0
IsDigit c = (b'0' ≤ c) × (c ≤ b'9')

-- Decimal numbers are digits; hexadecimal numbers are padded to the width if they fit in it; and both
-- tell numbers apart. The text of a pointer is what it points to, and a null pointer is an error.
pub record IsFmt (f : Fmt) : Type 0 where
  pub decimal_digits : (n : ℕ) → All IsDigit (f.decimal n)
  pub decimal_injective : (m n : ℕ) → f.decimal m ≡ f.decimal n → m ≡ n
  pub hex_width : (w n : ℕ) → n < 16 ^ w → length (f.hex w n) ≡ w
  pub hex_injective : (w m n : ℕ) → m < 16 ^ w → n < 16 ^ w → f.hex w m ≡ f.hex w n → m ≡ n
  pub c_string_text : (text : List ℕ) → f.c_string (some text) ≡ returns text
  pub c_string_null : f.c_string none ≡ aborts

module _ (f : Fmt) where
  -- The numbers of an array, with a character between them.
  abbrev pub separated : ℕ → (ℕ → List ℕ) → List ℕ → List ℕ
  separated c show [] = []
  separated c show (x ∷ []) = show x
  separated c show (x ∷ y ∷ l) = show x ++ (c ∷ separated c show (y ∷ l))

  -- `formatter<MAC>` and `formatter<IPv4>`, for the arrays of 6 and of 4 bytes.
  unfoldable pub format_mac : List ℕ → List ℕ
  format_mac mac = separated b':' (f.hex 2) mac

  unfoldable pub format_ipv4 : List ℕ → List ℕ
  format_ipv4 ip = separated b'.' f.decimal ip

  -- `formatter<checksum>`
  abbrev pub format_checksum : ℕ → List ℕ
  format_checksum n = f.decimal n

  -- `formatter<std::vector<T>>`, for numbers: the first one, and a space before each other.
  abbrev pub format_rest : List ℕ → List ℕ
  format_rest [] = []
  format_rest (x ∷ l) = b' ' ∷ (f.decimal x ++ format_rest l)

  unfoldable pub format_vector : List ℕ → List ℕ
  format_vector [] = b'[' ∷ b']' ∷ []
  format_vector (x ∷ l) = b'[' ∷ (f.decimal x ++ (format_rest l ++ (b']' ∷ [])))

  -- `formatter<Buffer>`, for the bytes that the buffer shows.
  unfoldable pub format_buffer : List ℕ → List ℕ
  format_buffer [] = []
  format_buffer (x ∷ l) = f.hex 2 x ++ (b' ' ∷ format_buffer l)

  module _ {d : TypestateDirection} where
    -- `formatter<Arp<...>>`, and the one for IPv4 over Ethernet.
    unfoldable pub format_arp : ℕ → ℕ → ℕ → ℕ → Arp d → List ℕ
    format_arp htype ptype hlen plen p =
        codes "<ARP htype=0x"
        ++ f.hex 4 htype
        ++ codes " ptype=0x"
        ++ f.hex 4 ptype
        ++ codes " hlen="
        ++ f.decimal hlen
        ++ codes " plen="
        ++ f.decimal plen
        ++ codes " op="
        ++ f.decimal p.oper
        ++ codes ">"

    unfoldable pub format_arp_ipv4 : Arp d → List ℕ
    format_arp_ipv4 p =
        codes "<ARP IPv4 op="
        ++ f.decimal p.oper
        ++ codes " sha="
        ++ format_mac p.sender_hardware_addr
        ++ codes " spa="
        ++ format_ipv4 p.sender_protocol_addr
        ++ codes " tha="
        ++ format_mac p.target_hardware_addr
        ++ codes " tpa="
        ++ format_ipv4 p.target_protocol_addr
        ++ codes ">"

    -- `formatter<Ip<direction>>`
    unfoldable pub format_ip : Ip d → List ℕ
    format_ip p =
        codes "<IP "
        ++ format_ipv4 p.src
        ++ codes " -> "
        ++ format_ipv4 p.dst
        ++ codes " protocol=0x"
        ++ f.hex 2 p.protocol
        ++ codes ">"

-- The text that `formatter<IcmpType>` finds for a type, `none` being the null pointer.
abbrev pub icmp_type_text : ℕ → Option (List ℕ)
icmp_type_text type =
    if type == echo_reply
    then some (codes "EchoReply")
    else if type == echo_request
    then some (codes "EchoRequest")
    else none

unfoldable pub format_icmp_type : Fmt → ℕ → Outcome (List ℕ)
format_icmp_type f type = f.c_string (icmp_type_text type)

-- `formatter<Icmp<direction>>`
unfoldable pub format_icmp : {d : TypestateDirection} → Fmt → Icmp d → Outcome (List ℕ)
format_icmp f p =
    format_icmp_type f p.type >>= λ text. returns (codes "<ICMP " ++ text ++ codes ">")
