-- ===== src/Socks5/Server/Stages.antt =====
-- Each stage of the handshake of include/socks5/server.hpp does what the protocol says of it.
use toad_jawbreaker.Prelude.{
  ℕ, suc, ◌+◌, ◌*◌, ◌^◌, ◌≤◌, ◌<◌, ◌≡◌, refl, ap, false, List, [], ◌∷◌, ◌++◌, length, take, ltb,
  ◌==◌, arith, length-append, length-take, append-nil, Bool-cases, inl, inr,
}
use toad_jawbreaker.Bytes.Stream.{ByteIStream, read_u8, read_u16}
use toad_jawbreaker.Bytes.Stream.Reading.{Reads-u8, Reads-u16, Reads-array, Ahead-skip, skip, be16}
use toad_jawbreaker.Nic.Checksum.Sum.{IsByte}
use toad_jawbreaker.Socks5.Process.{Event, received, connected, wrote, run}
use toad_jawbreaker.Socks5.Server.{
  Uninit, method_response, read_port, read_address, read_request, read_methods,
  handle_client_handshake,
}
use toad_jawbreaker.Socks5.Server.Methods.{has_zero, scan_methods_ends}
use toad_jawbreaker.Socks5.Server.Handshake.{
  await_port, await_ip, await_address, await_request, await_methods, session, Bytes, AtEnd,
  Ahead-more, AtEnd-more, run_connect, be16_pair,
}

read_u16_short :
    {limit : ℕ} (out : ℕ) (vec : List ℕ) (s : ByteIStream) (more : List ℕ)
    → AtEnd limit vec s
    → limit < 2 ^ 62
    → length more < 2
    → (read_u16 out (vec ++ more) s).0 ≡ out
unfolding read_u16
read_u16_short out vec s more h small few =
    ground (arith, h.short, h.at_end, length-append vec more)

read_u16_pair :
    {limit : ℕ} (out hi lo : ℕ) (vec : List ℕ) (s : ByteIStream)
    → AtEnd limit vec s
    → limit < 2 ^ 62
    → IsByte hi
    → IsByte lo
    → (read_u16 out (vec ++ (hi ∷ lo ∷ [])) s).0 ≡ hi * 256 + lo
read_u16_pair out hi lo vec s h small hb lb = rw (← be16_pair hi lo hb lb) (
    rw (
      (Reads-u16 out (hi * 256 + lo) (omega arith)).takes (vec ++ be16 (hi * 256 + lo)) s []
        (Ahead-more (be16 (hi * 256 + lo)) h (omega arith))))

run_port :
    {limit : ℕ} (u : Uninit) (ip vec : List ℕ) (s : ByteIStream) (es : List Event)
    → AtEnd limit vec s
    → limit < 2 ^ 62
    → Bytes es
    → run (read_port u ip vec s) es ≡ await_port u ip es
unfolding read_port
run_port u ip vec s [] h small hb = refl
run_port u ip vec s (connected b ∷ es) h small hb = refl
run_port u ip vec s (received [] ∷ es) h small hb =
    rw (read_u16_short u.port vec s [] h small (omega arith), run) (run_connect ip u.port es)
run_port u ip vec s (received (x ∷ []) ∷ es) h small hb =
    rw (read_u16_short u.port vec s (x ∷ []) h small (omega arith), run) (run_connect ip u.port es)
run_port u ip vec s (received (x ∷ y ∷ more) ∷ es) h small hb =
    rw (read_u16_pair u.port x y vec s h small hb.0.0 hb.0.1.0, run)
      (run_connect ip (x * 256 + y) es)

run_ip :
    {limit : ℕ} (u : Uninit) (vec : List ℕ) (s : ByteIStream) (es : List Event)
    → AtEnd limit vec s
    → limit + 4 < 2 ^ 62
    → Bytes es
    → run (read_address u 1 vec s) es ≡ await_ip u es
unfolding read_address
run_ip u vec s [] h small hb = refl
run_ip u vec s (connected b ∷ es) h small hb = refl
run_ip u vec s (received bytes ∷ es) h small hb =
    elim (Bool-cases (ltb (length (take 4 bytes)) 4)) [
      | inl few ↦ rw (few, run)
      | inr four ↦
          let size : length (take 4 bytes) ≡ 4 = ground (arith, length-take 4 bytes) in
          let address =
            (Reads-array 4 u.address (take 4 bytes) size).takes (vec ++ take 4 bytes) s []
              (rw append-nil (Ahead-more (take 4 bytes) h (omega (arith, size)))) in
          rw (four, run)
            (rw (address, run)
              (run_port u (take 4 bytes) (vec ++ take 4 bytes) _ es
                (AtEnd-more (take 4 bytes) 4 h (omega (arith, size))) small hb.1))
    ]

run_address :
    {limit : ℕ} (u : Uninit) (atype : ℕ) (vec : List ℕ) (s : ByteIStream) (es : List Event)
    → AtEnd limit vec s
    → limit + 4 < 2 ^ 62
    → Bytes es
    → run (read_address u atype vec s) es ≡ await_address u atype es
unfolding read_address
run_address u atype vec s es h small hb = elim (Bool-cases (atype == 1)) [
  | inl one ↦ rw one (run_ip u vec s es h small hb)
  | inr other ↦ rw other (elim (Bool-cases (atype == 3)) [
    | inl three ↦ rw (three, run) (run_port u u.address vec s es h (omega arith) hb)
    | inr none_of_them ↦ rw none_of_them
  ])
]

-- Four bytes ahead are read one after the other.
read_four :
    {limit : ℕ} (junk a b c d : ℕ) (vec : List ℕ) (s : ByteIStream)
    → AtEnd limit vec s
    → limit + 4 < 2 ^ 62
    → let v = vec ++ (a ∷ b ∷ c ∷ d ∷ []) in
      (read_u8 junk v s ≡ (a, skip 1 s))
      × (read_u8 junk v (skip 1 s) ≡ (b, skip 1 (skip 1 s)))
      × (read_u8 junk v (skip 1 (skip 1 s)) ≡ (c, skip 1 (skip 1 (skip 1 s))))
      × (read_u8 junk v (skip 1 (skip 1 (skip 1 s))) ≡ (d, skip 1 (skip 1 (skip 1 (skip 1 s)))))
read_four junk a b c d vec s h small =
    let v = vec ++ (a ∷ b ∷ c ∷ d ∷ []) in
    let h₁ = Ahead-more (a ∷ b ∷ c ∷ d ∷ []) h (omega arith) in
    let h₂ = Ahead-skip (a ∷ []) (b ∷ c ∷ d ∷ []) h₁ in
    let h₃ = Ahead-skip (b ∷ []) (c ∷ d ∷ []) h₂ in
    let h₄ = Ahead-skip (c ∷ []) (d ∷ []) h₃ in
    (
      (Reads-u8 junk a).takes v _ _ h₁,
      (Reads-u8 junk b).takes v _ _ h₂,
      (Reads-u8 junk c).takes v _ _ h₃,
      (Reads-u8 junk d).takes v _ _ h₄,
    )

AtEnd-four :
    {limit : ℕ} (a b c d : ℕ) (vec : List ℕ) (s : ByteIStream)
    → AtEnd limit vec s
    → AtEnd (limit + 4) (vec ++ (a ∷ b ∷ c ∷ d ∷ [])) (skip 1 (skip 1 (skip 1 (skip 1 s))))
AtEnd-four a b c d vec s h = record {
  short = omega (arith, h.short, length-append vec (a ∷ b ∷ c ∷ d ∷ []));
  at_end = omega (arith, h.at_end, length-append vec (a ∷ b ∷ c ∷ d ∷ []));
}

run_request :
    {limit : ℕ} (u : Uninit) (vec : List ℕ) (s : ByteIStream) (es : List Event)
    → AtEnd limit vec s
    → limit + 8 < 2 ^ 62
    → Bytes es
    → run (read_request u vec s) es ≡ await_request u es
unfolding read_request
run_request u vec s [] h small hb = refl
run_request u vec s (connected b ∷ es) h small hb = refl
run_request u vec s (received [] ∷ es) h small hb = refl
run_request u vec s (received (a ∷ []) ∷ es) h small hb = refl
run_request u vec s (received (a ∷ b ∷ []) ∷ es) h small hb = refl
run_request u vec s (received (a ∷ b ∷ c ∷ []) ∷ es) h small hb = refl
run_request u vec s (received (a ∷ b ∷ c ∷ d ∷ more) ∷ es) h small hb =
    let (r₁, r₂, r₃, r₄) = read_four u.byte a b c d vec s h (omega arith) in
    rw (r₁, run)
      (rw (r₂, run)
        (rw (r₃, run)
          (rw (r₄, run)
            (elim (Bool-cases (a == 5)) [
              | inr old ↦ rw (old, run)
              | inl five ↦
                  rw (five, run)
                    (elim (Bool-cases (b == 1)) [
                      | inr other ↦ rw (other, run)
                      | inl connect ↦
                          rw (connect, run)
                            (run_address u d (vec ++ (a ∷ b ∷ c ∷ d ∷ [])) _ es
                              (AtEnd-four a b c d vec s h) (omega arith) hb.1)
                    ])
            ]))))

run_methods :
    {limit : ℕ} (u : Uninit) (n : ℕ) (vec : List ℕ) (s : ByteIStream) (es : List Event)
    → AtEnd limit vec s
    → n < 256
    → limit + 300 < 2 ^ 62
    → Bytes es
    → run (read_methods u n vec s) es ≡ await_methods u n es
unfolding read_methods
run_methods u n vec s [] h fit small hb = refl
run_methods u n vec s (connected b ∷ es) h fit small hb = refl
run_methods u n vec s (received bytes ∷ es) h fit small hb =
    let ms = take n bytes in
    let size : length ms ≤ n = omega (arith, length-take n bytes) in
    let scanned =
      scan_methods_ends ms (suc (length (vec ++ ms))) u.byte (vec ++ ms) s false
        (Ahead-more ms h (omega arith)) (omega (arith, length-append vec ms)) in
    elim (Bool-cases (ltb (length ms) n)) [
      | inl few ↦ rw (few, run)
      | inr enough ↦
          rw (enough, run)
            (rw (scanned, run)
              (elim (Bool-cases (has_zero ms)) [
                | inr refused ↦ rw (refused, run)
                | inl offered ↦
                    rw (offered, run)
                      (ap (λ l. wrote method_response ∷ l)
                        (run_request u (vec ++ ms) _ es (AtEnd-more ms n h size) (omega arith)
                          hb.1))
              ]))
    ]

-- On every sequence of answers that are bytes, whatever the uninitialised variables hold, the
-- handshake does exactly what the protocol description `session` says.
pub handshake-session :
    (u : Uninit) (es : List Event) → Bytes es → run (handle_client_handshake u) es ≡ session u es
unfolding handle_client_handshake session read_u8
handshake-session u [] hb = refl
handshake-session u (connected b ∷ es) hb = refl
handshake-session u (received [] ∷ es) hb = refl
handshake-session u (received (v ∷ []) ∷ es) hb = refl
handshake-session u (received (v ∷ n ∷ more) ∷ es) hb = elim (Bool-cases (v == 5)) [
  | inr old ↦ rw (old, run)
  | inl five ↦
      rw (five, run)
        (run_methods {limit = 2} u n (v ∷ n ∷ []) _ es
          (record { short = omega arith; at_end = refl }) hb.0.1.0 (omega arith) hb.1)
]
