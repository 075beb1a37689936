-- ===== src/Telemetry/Bytes.antt =====
-- Big-endian doubles in packets: `appendDouble` of src/fsw/telemetry/TelemetryService.cpp and of
-- src/sim/GroundStation.cpp, and the reads that undo it.
use cubesat_fsw_gnc.Prelude.{
  ℕ, ◌+◌, ◌-◌, ◌≡◌, refl, ap, ◌∙◌, sym, List, [], ◌∷◌, ◌++◌, arith, length, get_or, set, take, drop,
}
use cubesat_fsw_gnc.Double.{Stored}

-- One turn of the loop that swaps `temp[i]` and `temp[7 - i]`.
unfoldable pub swap_ends : ℕ → List ℕ → List ℕ
swap_ends i temp = set (set temp i (get_or temp (7 - i) 0)) (7 - i) (get_or temp i 0)

unfoldable pub reverse_eight : List ℕ → List ℕ
unfolding swap_ends
reverse_eight temp = swap_ends 3 (swap_ends 2 (swap_ends 1 (swap_ends 0 temp)))

-- `memcpy(dst + offset, src, size of src)`, inside the destination
unfoldable pub memcpy : List ℕ → ℕ → List ℕ → List ℕ
memcpy dst offset src = take offset dst ++ (src ++ drop (offset + length src) dst)

module _ {D : Type 0} ⦃s : Stored D⦄ where
  unfoldable pub append_double : List ℕ → D → List ℕ
  append_double buffer value = buffer ++ reverse_eight (s.bytes value)

  -- `readDouble`: the value, and the offset behind it
  unfoldable pub read_double : List ℕ → ℕ → D × ℕ
  unfolding reverse_eight
  read_double bytes offset = (s.of_bytes (reverse_eight (take 8 (drop offset bytes))), offset + 8)

  -- Eight bytes, by name.
  pub record Octets (value : D) : Type 0 where
    pub b0 : ℕ
    pub b1 : ℕ
    pub b2 : ℕ
    pub b3 : ℕ
    pub b4 : ℕ
    pub b5 : ℕ
    pub b6 : ℕ
    pub b7 : ℕ
    pub are_bytes : s.bytes value ≡ b0 ∷ b1 ∷ b2 ∷ b3 ∷ b4 ∷ b5 ∷ b6 ∷ b7 ∷ []

  octets_of : (value : D) (xs : List ℕ) → s.bytes value ≡ xs → length xs ≡ 8 → Octets value
  octets_of value (a ∷ b ∷ c ∷ d ∷ e ∷ f ∷ g ∷ h ∷ []) p n = record {
    b0 = a;
    b1 = b;
    b2 = c;
    b3 = d;
    b4 = e;
    b5 = f;
    b6 = g;
    b7 = h;
    are_bytes = p;
  }
  octets_of value (a ∷ b ∷ c ∷ d ∷ e ∷ f ∷ g ∷ h ∷ i ∷ xs) p n = absurd (omega arith)
  octets_of value _ p n = absurd (omega arith)

  pub octets : (value : D) → Octets value
  octets value = octets_of value (s.bytes value) refl (s.length-bytes value)

  -- The bytes that a double has on the wire.
  abbrev pub wire : {value : D} → Octets value → List ℕ
  wire o = o.b7 ∷ o.b6 ∷ o.b5 ∷ o.b4 ∷ o.b3 ∷ o.b2 ∷ o.b1 ∷ o.b0 ∷ []

  pub append_double-wire :
      (buffer : List ℕ) (value : D) → append_double buffer value ≡ buffer ++ wire (octets value)
  unfolding append_double reverse_eight
  append_double-wire buffer value = rw ((octets value).are_bytes, reverse_eight)

  -- The bytes in the order of the memory, which a reader of the wire has turned round.
  abbrev pub memory : {value : D} → Octets value → List ℕ
  memory o = o.b0 ∷ o.b1 ∷ o.b2 ∷ o.b3 ∷ o.b4 ∷ o.b5 ∷ o.b6 ∷ o.b7 ∷ []

  pub of_bytes-octets : (value : D) → s.of_bytes (memory (octets value)) ≡ value
  of_bytes-octets value = ap s.of_bytes (sym (octets value).are_bytes) ∙ s.of_bytes-bytes value
