-- ===== src/Nic/Arp.antt =====
-- include/nic/arp.hpp: ARP packets. The template parameters are the parameters of the section, and
-- the direction a parameter of the type.
pub mod Codec
use toad_jawbreaker.Prelude.{
  ℕ, ◌+◌, ◌*◌, ◌^◌, ◌<◌, ◌≡◌, List, length, Outcome, returns, aborts, if◌then◌else◌,
}
use toad_jawbreaker.Bytes.Stream.{
  ByteIStream, Reader, pure, ◌>>=◌, read_u8, read_u16, read_array, is_ok, Writer, ◌⨾◌, write_u8,
  write_u16, write_array,
}
use toad_jawbreaker.Nic.Typestate.{TypestateDirection, reverse_direction}

abbrev pub ethertype_arp : ℕ
ethertype_arp = 0x0806

pub record Arp (direction : TypestateDirection) : Type 0 where
  pub oper : ℕ
  pub sender_hardware_addr : List ℕ
  pub target_hardware_addr : List ℕ
  pub sender_protocol_addr : List ℕ
  pub target_protocol_addr : List ℕ

abbrev pub header_size : ℕ
header_size = 28

-- `size()`: there are no options, and there is no payload.
abbrev pub size : ℕ
size = header_size + 0 + 0

module _ (htype ptype hlen plen : ℕ) where
  -- What the types of the fields say.
  pub record IsArp {d : TypestateDirection} (p : Arp d) : Type 0 where
    pub oper_fits : p.oper < 2 ^ 16
    pub sha : length p.sender_hardware_addr ≡ hlen
    pub tha : length p.target_hardware_addr ≡ hlen
    pub spa : length p.sender_protocol_addr ≡ plen
    pub tpa : length p.target_protocol_addr ≡ plen

  -- `sizeof(htype) + sizeof(ptype) + ...`
  abbrev pub expected_buffer_length : ℕ
  expected_buffer_length = 2 + 2 + 2 + 1 + 1 + 2 * plen + 2 * hlen

  -- The two chains of reads. `junk` and `ret` stand for what uninitialised variables hold.
  unfoldable pub read_fields : {d : TypestateDirection} → ℕ → Arp d → Reader (Arp d)
  read_fields junk ret = do
    parsed_htype ← read_u16 junk
    parsed_ptype ← read_u16 junk
    parsed_hlen ← read_u8 junk
    parsed_plen ← read_u8 junk
    oper ← read_u16 ret.oper
    sha ← read_array hlen ret.sender_hardware_addr
    spa ← read_array plen ret.sender_protocol_addr
    tha ← read_array hlen ret.target_hardware_addr
    tpa ← read_array plen ret.target_protocol_addr
    pure (record {
      oper = oper;
      sender_hardware_addr = sha;
      target_hardware_addr = tha;
      sender_protocol_addr = spa;
      target_protocol_addr = tpa;
    })

  unfoldable pub try_from_stream :
      {d : TypestateDirection} → ℕ → Arp d → List ℕ → ByteIStream → Outcome (Arp d × ByteIStream)
  try_from_stream junk ret bytes s =
      let (p, s') = read_fields junk ret bytes s in
      if is_ok s'.errc then returns (p, s') else aborts

  unfoldable pub try_to_stream : {d : TypestateDirection} → Arp d → Writer
  try_to_stream p =
      write_u16 htype
      ⨾ write_u16 ptype
      ⨾ write_u8 hlen
      ⨾ write_u8 plen
      ⨾ write_u16 p.oper
      ⨾ write_array p.sender_hardware_addr
      ⨾ write_array p.sender_protocol_addr
      ⨾ write_array p.target_hardware_addr
      ⨾ write_array p.target_protocol_addr

unfoldable pub copy_as_response :
    {d : TypestateDirection} → List ℕ → Arp d → Arp (reverse_direction d)
copy_as_response respond_with p = record {
  oper = 0x0002;
  sender_hardware_addr = respond_with;
  target_hardware_addr = p.sender_hardware_addr;
  sender_protocol_addr = p.target_protocol_addr;
  target_protocol_addr = p.sender_protocol_addr;
}

abbrev pub htype_ethernet_1 : ℕ
htype_ethernet_1 = 0x0001

abbrev pub ptype_ipv4 : ℕ
ptype_ipv4 = 0x0800
