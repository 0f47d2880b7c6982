-- ===== src/Format/Distinct.antt =====
-- What the texts of the formatters tell apart.
use toad_jawbreaker.Prelude.{
  ℕ, ◌≡◌, ◌≢◌, ◌↔◌, refl, sym, ap, ◌∙◌, List, [], ◌∷◌, ◌++◌, length, All, arith, length-append,
  aborts,
}
use toad_jawbreaker.Nic.Checksum.Sum.{IsByte}
use toad_jawbreaker.Nic.Typestate.{TypestateDirection}
use toad_jawbreaker.Nic.Icmp.{Icmp}
use toad_jawbreaker.Format.{
  Fmt, IsFmt, separated, format_mac, format_ipv4, format_buffer, format_icmp_type, format_icmp,
  codes,
}
use toad_jawbreaker.Format.Texts.{append-injective, digits-injective, ∷-injective}

module _ (f : Fmt) (h : IsFmt f) where
  -- Numbers that can be taken off the front of a text one by one.
  separated-injective {κ} :
      (P : ℕ → Type κ) (c : ℕ) (show : ℕ → List ℕ)
      → ((x y : ℕ) → P x → P y → show x ≡ show y → x ≡ y)
      → ((x y : ℕ) (r s : List ℕ)
          → P x
          → P y
          → show x ++ (c ∷ r) ≡ show y ++ (c ∷ s)
          → (x ≡ y) × (r ≡ s))
      → (l k : List ℕ) → length l ≡ length k
      → All P l
      → All P k
      → separated f c show l ≡ separated f c show k
      → l ≡ k
  separated-injective P c show last first [] [] n p q e = refl
  separated-injective P c show last first [] (y ∷ k) n p q e = absurd (omega (arith, n))
  separated-injective P c show last first (x ∷ l) [] n p q e = absurd (omega (arith, n))
  separated-injective P c show last first (x ∷ []) (y ∷ []) n (p, ps) (q, qs) e =
      ap (λ z. z ∷ []) (last x y p q e)
  separated-injective P c show last first (x ∷ []) (y ∷ y' ∷ k) n p q e = absurd (omega (arith, n))
  separated-injective P c show last first (x ∷ x' ∷ l) (y ∷ []) n p q e = absurd (omega (arith, n))
  separated-injective P c show last first (x ∷ x' ∷ l) (y ∷ y' ∷ k) n (p, ps) (q, qs) e =
      let (same, rest) = first x y _ _ p q e in
      cc (
        same,
        separated-injective P c show last first (x' ∷ l) (y' ∷ k) (omega (arith, n)) ps qs rest,
      )

  hex_2 : (x : ℕ) → IsByte x → length (f.hex 2 x) ≡ 2
  hex_2 x b = h.hex_width 2 x (omega (arith, b))

  take_hex :
      (x y : ℕ) (r s : List ℕ)
      → IsByte x
      → IsByte y
      → f.hex 2 x ++ r ≡ f.hex 2 y ++ s
      → (x ≡ y) × (r ≡ s)
  take_hex x y r s p q e =
      let (same, rest) =
        append-injective (f.hex 2 x) (f.hex 2 y) r s (hex_2 x p ∙ sym (hex_2 y q)) e in
      (h.hex_injective 2 x y (omega (arith, p)) (omega (arith, q)) same, rest)

  take_decimal :
      (x y : ℕ) (r s : List ℕ)
      → f.decimal x ++ (b'.' ∷ r) ≡ f.decimal y ++ (b'.' ∷ s)
      → (x ≡ y) × (r ≡ s)
  take_decimal x y r s e =
      let (same, rest) =
        digits-injective b'.' (f.decimal x) (f.decimal y) r s (λ d. omega (arith, d.0, d.1))
          (h.decimal_digits x) (h.decimal_digits y) e in
      (h.decimal_injective x y same, rest)

  some_text : (x : ℕ) (r : List ℕ) → IsByte x → f.hex 2 x ++ r ≢ []
  some_text x r p e = absurd (omega (arith, hex_2 x p, length-append (f.hex 2 x) r, ap length e))

  format_buffer_injective :
      (l k : List ℕ) → All IsByte l → All IsByte k → format_buffer f l ≡ format_buffer f k → l ≡ k
  unfolding format_buffer
  format_buffer_injective [] [] p q e = refl
  format_buffer_injective [] (y ∷ k) p (q, qs) e = absurd (some_text y _ q (sym e))
  format_buffer_injective (x ∷ l) [] (p, ps) q e = absurd (some_text x _ p e)
  format_buffer_injective (x ∷ l) (y ∷ k) (p, ps) (q, qs) e =
      let (same, rest) = take_hex x y (b' ' ∷ format_buffer f l) (b' ' ∷ format_buffer f k) p q e in
      cc (same, format_buffer_injective l k ps qs (∷-injective rest).1)

  -- Addresses of IPv4 are formatted alike exactly if they are the same, and so are hardware addresses,
  -- and the contents of buffers of any length.
  pub formats-injective :
      (l k : List ℕ)
      → All IsByte l
      → All IsByte k
      → ((length l ≡ length k) × (format_ipv4 f l ≡ format_ipv4 f k) ↔ (l ≡ k))
        × ((length l ≡ length k) × (format_mac f l ≡ format_mac f k) ↔ (l ≡ k))
        × ((format_buffer f l ≡ format_buffer f k) ↔ (l ≡ k))
  unfolding format_ipv4 format_mac
  formats-injective l k p q = (
    (
      λ (n, e).
          separated-injective IsByte b'.' f.decimal (λ x y _ _ g. h.decimal_injective x y g)
            (λ x y r s _ _ g. take_decimal x y r s g) l k n p q e,
      λ e. (ap length e, ap (λ z. format_ipv4 f z) e),
    ),
    (
      λ (n, e).
          separated-injective IsByte b':' (f.hex 2)
            (λ x y a b g. h.hex_injective 2 x y (omega (arith, a)) (omega (arith, b)) g)
            (λ x y r s a b g.
              let (same, rest) = take_hex x y (b':' ∷ r) (b':' ∷ s) a b g in
              (same, (∷-injective rest).1))
            l k n p q e,
      λ e. (ap length e, ap (λ z. format_mac f z) e),
    ),
    (λ e. format_buffer_injective l k p q e, λ e. ap (λ z. format_buffer f z) e),
  )

-- To format an ICMP packet throws exactly if its type, which a parsed packet may hold, is neither that of
-- an echo request nor that of a reply.
pub format_icmp-aborts_iff :
    {d : TypestateDirection} (f : Fmt) (h : IsFmt f) (p : Icmp d)
    → (format_icmp f p ≡ aborts) ↔ ((p.type ≢ 0) × (p.type ≢ 8))
unfolding format_icmp format_icmp_type
format_icmp-aborts_iff f h p = ground (
  arith,
  h.c_string_null,
  h.c_string_text (codes "EchoReply"),
  h.c_string_text (codes "EchoRequest"),
)
