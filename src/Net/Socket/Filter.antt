-- ===== src/Net/Socket/Filter.antt =====
-- core/core/net/socket/filter: the packet filter for ICMP, PacketFilter.h, PacketFilter.cpp and
-- IcmpFilter.cpp.
use cpp_grcp_testground.Prelude.{
  ℕ, zero, suc, ◌+◌, ◌*◌, ◌<◌, ◌≡◌, ◌⊎◌, inl, inr, refl, Bool, false, ◌&&◌, Option, none, some,
  List, [], ◌∷◌, ltb, ◌==◌, if◌then◌else◌, arith, All, Bool-cases,
}
use cpp_grcp_testground.Models.Time.{ℤ, pos, negsuc}
use cpp_grcp_testground.Net.Bytes.{IsByte}

-- `sock_filter`: an instruction, its two jumps and its constant.
pub record SockFilter : Type 0 where
  pub code : ℕ
  pub jt : ℕ
  pub jf : ℕ
  pub k : ℕ

-- The array `code`: the half-word at 12 has to be 0x0800, and the byte at 23 has to be 1.
abbrev pub icmp_code : List SockFilter
icmp_code =
    record { code = 40; jt = 0; jf = 0; k = 12 }
    ∷ record { code = 21; jt = 0; jf = 3; k = 2048 }
    ∷ record { code = 48; jt = 0; jf = 0; k = 23 }
    ∷ record { code = 21; jt = 0; jf = 1; k = 1 }
    ∷ record { code = 6; jt = 0; jf = 0; k = 262144 }
    ∷ record { code = 6; jt = 0; jf = 0; k = 0 }
    ∷ []

-- What a frame has at an index.
abbrev pub byte_at : ℕ → List ℕ → Option ℕ
byte_at i [] = none
byte_at zero (b ∷ frame) = some b
byte_at (suc i) (b ∷ frame) = byte_at i frame

-- The number of two bytes in network order, and nothing if one of them is missing.
abbrev pub half_word : Option ℕ → Option ℕ → Option ℕ
half_word none low = none
half_word (some high) none = none
half_word (some high) (some low) = some (256 * high + low)

-- A load into the accumulator, after which the program goes on or ends with 0.
abbrev pub load : (ℕ → ℕ) → Option ℕ → ℕ
load go_on none = 0
load go_on (some v) = go_on v

-- What runs a filter in the kernel: `run n code a frame` skips `n` instructions and runs the rest with
-- the accumulator `a` on a frame, and answers how many of its bytes are kept. The laws are the
-- documented behaviour of the instructions that the filter has: the absolute loads of a half-word and
-- of a byte, which end the program with 0 if the frame is too short, the jump on equality and the
-- return of a constant.
pub record FilterMachine : Type 0 where
  pub run : ℕ → List SockFilter → ℕ → List ℕ → ℕ
  pub run_skip :
      (n : ℕ) (i : SockFilter) (code : List SockFilter) (a : ℕ) (frame : List ℕ)
      → run (suc n) (i ∷ code) a frame ≡ run n code a frame
  pub run_load_half :
      (jt jf k : ℕ) (code : List SockFilter) (a : ℕ) (frame : List ℕ)
      → run 0 (record { code = 40; jt = jt; jf = jf; k = k } ∷ code) a frame
        ≡ load (λ v. run 0 code v frame) (half_word (byte_at k frame) (byte_at (suc k) frame))
  pub run_load_byte :
      (jt jf k : ℕ) (code : List SockFilter) (a : ℕ) (frame : List ℕ)
      → run 0 (record { code = 48; jt = jt; jf = jf; k = k } ∷ code) a frame
        ≡ load (λ v. run 0 code v frame) (byte_at k frame)
  pub run_jump :
      (jt jf k : ℕ) (code : List SockFilter) (a : ℕ) (frame : List ℕ)
      → run 0 (record { code = 21; jt = jt; jf = jf; k = k } ∷ code) a frame
        ≡ run (if a == k then jt else jf) code a frame
  pub run_return :
      (jt jf k : ℕ) (code : List SockFilter) (a : ℕ) (frame : List ℕ)
      → run 0 (record { code = 6; jt = jt; jf = jf; k = k } ∷ code) a frame ≡ k

abbrev pub is_byte : Option ℕ → ℕ → Bool
is_byte none v = false
is_byte (some b) v = b == v

-- A frame with an IPv4 packet whose protocol is ICMP: its type, the bytes 12 and 13, is 08 00, and the
-- byte 23 is 1.
abbrev pub is_icmp : List ℕ → Bool
is_icmp frame =
    is_byte (byte_at 12 frame) 8 && is_byte (byte_at 13 frame) 0 && is_byte (byte_at 23 frame) 1

-- `> 0`
abbrev pub is_positive : ℤ → Bool
is_positive (pos n) = ltb 0 n
is_positive (negsuc n) = false

-- `PacketFilter::attach` and `PacketFilter::detach`, whose system call is the argument; `none` is the
-- assertion that there is a filter.
unfoldable pub attach : (List SockFilter → ℤ) → Option (List SockFilter) → Option Bool
attach setsockopt none = none
attach setsockopt (some filter) = some (is_positive (setsockopt filter))

unfoldable pub detach : (List SockFilter → ℤ) → Option (List SockFilter) → Option Bool
detach setsockopt none = none
detach setsockopt (some filter) = some (is_positive (setsockopt filter))

-- `IcmpFilter()`
abbrev pub icmp_filter : Option (List SockFilter)
icmp_filter = some icmp_code

-- `attach` and `detach` answer that they failed, whether the system call, which returns 0 or -1, does
-- what it was asked for or not.
pub attach-fails :
    (setsockopt : List SockFilter → ℤ) (filter : List SockFilter)
    → (setsockopt filter ≡ pos 0) ⊎ (setsockopt filter ≡ negsuc 0)
    → (attach setsockopt (some filter) ≡ some false)
      × (detach setsockopt (some filter) ≡ some false)
unfolding attach detach
attach-fails setsockopt filter (inl done) = rw done (refl, refl)
attach-fails setsockopt filter (inr refused) = rw refused (refl, refl)

byte_at-IsByte : (i : ℕ) (frame : List ℕ) → All IsByte frame → load (λ v. v) (byte_at i frame) < 256
byte_at-IsByte i [] h = omega arith
byte_at-IsByte zero (b ∷ frame) h = h.0
byte_at-IsByte (suc i) (b ∷ frame) h = byte_at-IsByte i frame h.1

module _ (machine : FilterMachine) where
  answer :
      (p : Option ℕ) (frame : List ℕ)
      → load
          (λ v.
            machine.run 0
              (record { code = 21; jt = 0; jf = 1; k = 1 }
                ∷ record { code = 6; jt = 0; jf = 0; k = 262144 }
                ∷ record { code = 6; jt = 0; jf = 0; k = 0 }
                ∷ [])
              v
              frame)
          p
        ≡ (if is_byte p 1 then 262144 else 0)
  answer none frame = refl
  answer (some v) frame = rw machine.run_jump (elim (Bool-cases (v == 1)) [
    | inl same ↦ rw (same, machine.run_return) refl
    | inr other ↦ rw (other, machine.run_skip, machine.run_return) refl
  ])

  type_known :
      (v : ℕ) (frame : List ℕ)
      → machine.run 0
          (record { code = 21; jt = 0; jf = 3; k = 2048 }
            ∷ record { code = 48; jt = 0; jf = 0; k = 23 }
            ∷ record { code = 21; jt = 0; jf = 1; k = 1 }
            ∷ record { code = 6; jt = 0; jf = 0; k = 262144 }
            ∷ record { code = 6; jt = 0; jf = 0; k = 0 }
            ∷ [])
          v
          frame
        ≡ (if v == 2048 then if is_byte (byte_at 23 frame) 1 then 262144 else 0 else 0)
  type_known v frame = rw machine.run_jump (elim (Bool-cases (v == 2048)) [
    | inl same ↦ rw (same, machine.run_load_byte) (answer (byte_at 23 frame) frame)
    | inr other ↦
        rw (other, machine.run_skip, machine.run_skip, machine.run_skip, machine.run_return) refl
  ])

  half_word-Bool :
      (high low : Option ℕ) (rest : Bool)
      → load (λ v. v) high < 256
      → load (λ v. v) low < 256
      → load (λ v. if v == 2048 then if rest then 262144 else 0 else 0) (half_word high low)
        ≡ (if is_byte high 8 && is_byte low 0 && rest then 262144 else 0)
  half_word-Bool none low rest h l = refl
  half_word-Bool (some high) none rest h l = ground arith
  half_word-Bool (some high) (some low) rest h l = ground arith

  load-eq : (f g : ℕ → ℕ) (o : Option ℕ) → ((v : ℕ) → f v ≡ g v) → load f o ≡ load g o
  load-eq f g none h = refl
  load-eq f g (some v) h = h v

  -- The filter keeps a frame of bytes, up to 0x40000 of them, if it has an ICMP packet over IPv4, and
  -- drops every other one, a frame that is too short to tell included.
  pub icmp_code-is_icmp :
      (frame : List ℕ)
      → All IsByte frame
      → machine.run 0 icmp_code 0 frame ≡ (if is_icmp frame then 262144 else 0)
  icmp_code-is_icmp frame h =
      rw
        (
          machine.run_load_half,
          load-eq _ _ (half_word (byte_at 12 frame) (byte_at 13 frame)) (λ v. type_known v frame),
        )
        (half_word-Bool (byte_at 12 frame) (byte_at 13 frame) (is_byte (byte_at 23 frame) 1)
          (byte_at-IsByte 12 frame h) (byte_at-IsByte 13 frame h))
