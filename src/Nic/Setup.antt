-- ===== src/Nic/Setup.antt =====
-- include/nic/device.hpp and include/nic/mac.hpp: the set-up of a TAP device, for all that the system
-- calls may answer.
use toad_jawbreaker.Prelude.{
  ℕ, ◌≡◌, ◌↔◌, bit_or, Bool, true, false, if◌then◌else◌, not, List, [], ◌∷◌, ◌++◌, Option, none,
  some, Outcome, returns, aborts, take, arith,
}
use toad_jawbreaker.Prelude.Int.{ℤ, is_negative, is_positive}
use toad_jawbreaker.Nic.Device.{Device}

-- The descriptors that the set-up opens: the device, and a socket for the hardware address and one for
-- the configuration.
pub data Descriptor : Type 0 where
  device_fd mac_sock sock_fd : Descriptor

-- What is done outside, in order. The addresses and flags are those that the requests carry.
pub data Effect : Type 0 where
  opens : Descriptor → Effect
  closes : Descriptor → Effect
  sets_addr : List ℕ → Effect
  sets_netmask : List ℕ → Effect
  sets_flags : ℕ → Effect

-- The answers of `socket` and of `ioctl(SIOCGIFHWADDR)`, with the address that it fills in.
pub record MacAnswers : Type 0 where
  pub socket : ℤ
  pub get_hwaddr : ℤ
  pub sa_data : List ℕ

-- `MAC::system_addr`; `ret` is what the uninitialised address holds.
unfoldable pub system_addr : List ℕ → MacAnswers → List ℕ × List Effect
system_addr ret a =
    if is_negative a.socket
    then (ret, [])
    else if is_negative a.get_hwaddr
    then (ret, opens mac_sock ∷ closes mac_sock ∷ [])
    else (take 6 a.sa_data, opens mac_sock ∷ closes mac_sock ∷ [])

-- The answers of the calls of `try_new`. `inet_pton` gives bytes or leaves its destination as it was.
-- What setting the address, the netmask and the flags and reading the flags answer is only logged.
pub record DeviceAnswers : Type 0 where
  pub open_tun : ℤ
  pub set_iff : ℤ
  pub mac : MacAnswers
  pub socket : ℤ
  pub own_ip : Option (List ℕ)
  pub network_mask : Option (List ℕ)
  pub if_flags : ℕ
  pub get_mtu : ℤ
  pub if_mtu : ℕ

abbrev pub bytes_or : Option (List ℕ) → List ℕ → List ℕ
bytes_or none bytes = bytes
bytes_or (some parsed) bytes = parsed

-- `IFF_UP | IFF_RUNNING`
abbrev pub iff_up_running : ℕ
iff_up_running = bit_or 0x1 0x40

-- The result, with the descriptor of the device, and what was done.
pub record Setup : Type 0 where
  pub result : Outcome (Option (ℤ × Device))
  pub effects : List Effect

-- The block that configures the interface. The netmask lies in the memory of the address.
abbrev pub configure : DeviceAnswers → List Effect
configure a =
    let addr = bytes_or a.own_ip (0 ∷ 0 ∷ 0 ∷ 0 ∷ []) in
    sets_addr addr
    ∷ sets_netmask (bytes_or a.network_mask addr)
    ∷ sets_flags (bit_or a.if_flags iff_up_running)
    ∷ []

-- From the socket for the configuration on.
unfoldable pub set_up : List ℕ → DeviceAnswers → List Effect → Setup
set_up own_mac a before =
    if is_negative a.socket
    then record { result = returns none; effects = before ++ (closes device_fd ∷ []) }
    else (let configured = before ++ (opens sock_fd ∷ configure a) in
        if is_negative a.get_mtu
        then record { result = returns none; effects = configured ++ (closes sock_fd ∷ []) }
        else record {
          result = returns (
              some (
                a.open_tun,
                record {
                  own_mac = own_mac;
                  own_ip = bytes_or a.own_ip (0 ∷ 0 ∷ 0 ∷ 0 ∷ []);
                  maximum_transmission_unit = a.if_mtu;
                },
              ));
          effects = configured ++ (closes sock_fd ∷ []);
        })

-- `Device::try_new`
unfoldable pub try_new : List ℕ → DeviceAnswers → Setup
try_new ret a =
    if not (is_positive a.open_tun)
    then record { result = aborts; effects = [] }
    else if is_negative a.set_iff
    then record { result = returns none; effects = opens device_fd ∷ closes device_fd ∷ [] }
    else (let (own_mac, done) = system_addr ret a.mac in set_up own_mac a (opens device_fd ∷ done))

abbrev same : Descriptor → Descriptor → Bool
same device_fd device_fd = true
same mac_sock mac_sock = true
same sock_fd sock_fd = true
same device_fd mac_sock = false
same device_fd sock_fd = false
same mac_sock device_fd = false
same mac_sock sock_fd = false
same sock_fd device_fd = false
same sock_fd mac_sock = false

-- Whether the descriptor is open after these effects, if it was open or closed before.
abbrev pub is_open : Descriptor → Bool → List Effect → Bool
is_open d b [] = b
is_open d b (opens e ∷ l) = is_open d (if same d e then true else b) l
is_open d b (closes e ∷ l) = is_open d (if same d e then false else b) l
is_open d b (sets_addr x ∷ l) = is_open d b l
is_open d b (sets_netmask x ∷ l) = is_open d b l
is_open d b (sets_flags x ∷ l) = is_open d b l

-- Whatever the system calls answer, the sockets that the set-up opens are closed again. The device stays
-- open if it is returned, and also, with nobody to close it, if the set-up fails at the question for the
-- transmission unit; it is closed if the set-up fails before.
pub try_new-is_open :
    (ret : List ℕ) (a : DeviceAnswers)
    → (is_open mac_sock false (try_new ret a).effects ≡ false)
      × (is_open sock_fd false (try_new ret a).effects ≡ false)
      × ((is_open device_fd false (try_new ret a).effects ≡ true) ↔ (
          (is_positive a.open_tun ≡ true)
          × (is_negative a.set_iff ≡ false)
          × (is_negative a.socket ≡ false)))
      × ((((try_new ret a).result ≡ returns none)
            × (is_open device_fd false (try_new ret a).effects ≡ true))
          ↔ ((is_positive a.open_tun ≡ true)
              × (is_negative a.set_iff ≡ false)
              × (is_negative a.socket ≡ false)
              × (is_negative a.get_mtu ≡ true)))
unfolding try_new set_up system_addr
try_new-is_open ret a = (ground arith, ground arith, ground arith, ground arith)
