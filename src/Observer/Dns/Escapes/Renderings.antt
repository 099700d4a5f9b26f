-- ===== src/Observer/Dns/Escapes/Renderings.antt =====
-- crates/ovid-observer/src/dns.rs: the decoder undoes every rendering that strace may choose.
use ovid.Prelude.{
  ℕ, zero, suc, ◌+◌, ◌-◌, ◌*◌, ◌%◌, ◌≤◌, ◌<◌, ◌≡◌, refl, ap, ◌∙◌, true, false, ◌&&◌, List, [], ◌∷◌,
  Text, length, nat_beq, arith,
}
use ovid.Observer.Dns.Escapes.{is_octal, octal, escape, decode, decode_strace_bytes}

-- The letters of the short escapes, with their bytes.
pub data Short : ℕ → ℕ → Type 0 where
  newline : Short b'n' 10
  tab : Short b't' 9
  carriage_return : Short b'r' 13
  vertical_tab : Short b'v' 11
  form_feed : Short b'f' 12
  quote : Short 34 34
  backslash : Short 92 92

-- No octal digit follows.
abbrev pub Closed : Text → Type 0
Closed [] = Unit
Closed (c ∷ t) = is_octal c ≡ false

-- A text that stands for the bytes: a byte as itself, by a short escape, or by one to three octal
-- digits, fewer than three only where no octal digit follows.
pub data Rendering : List ℕ → Text → Type 0 where
  done : Rendering [] []
  plain :
      {b : ℕ} {bs : List ℕ} {t : Text}
      → nat_beq b 92 ≡ false
      → Rendering bs t
      → Rendering (b ∷ bs) (b ∷ t)
  short :
      {c b : ℕ} {bs : List ℕ} {t : Text}
      → Short c b
      → Rendering bs t
      → Rendering (b ∷ bs) (92 ∷ c ∷ t)
  octal_1 :
      {c b : ℕ} {bs : List ℕ} {t : Text}
      → is_octal c ≡ true
      → b ≡ c - b'0'
      → Closed t
      → Rendering bs t
      → Rendering (b ∷ bs) (92 ∷ c ∷ t)
  octal_2 :
      {c d b : ℕ} {bs : List ℕ} {t : Text}
      → (is_octal c && is_octal d) ≡ true
      → b ≡ (c - b'0') * 8 + (d - b'0')
      → Closed t
      → Rendering bs t
      → Rendering (b ∷ bs) (92 ∷ c ∷ d ∷ t)
  octal_3 :
      {c d e b : ℕ} {bs : List ℕ} {t : Text}
      → (is_octal c && (is_octal d && is_octal e)) ≡ true
      → b ≡ ((c - b'0') * 8 + (d - b'0')) * 8 + (e - b'0')
      → b < 256
      → Rendering bs t
      → Rendering (b ∷ bs) (92 ∷ c ∷ d ∷ e ∷ t)

octal-Closed : (n value : ℕ) (t : Text) → Closed t → octal n value t ≡ (value, t)
unfolding octal
octal-Closed zero value t h = refl
octal-Closed (suc n) value [] h = refl
octal-Closed (suc n) value (c ∷ t) h = rw (h, octal) refl

octal-digit :
    (n value c : ℕ) (t : Text)
    → is_octal c ≡ true
    → octal (suc n) value (c ∷ t) ≡ octal n (value * 8 + (c - b'0')) t
unfolding octal
octal-digit n value c t h = rw (h, octal) refl

-- An octal digit is none of the letters.
escape-octal :
    (c : ℕ) (t : Text)
    → is_octal c ≡ true
    → escape (c ∷ t) ≡ ((octal 2 (c - b'0') t).0 % 256 ∷ [], (octal 2 (c - b'0') t).1)
unfolding escape
escape-octal c t h = ground arith

escape-one :
    (c b : ℕ) (t : Text)
    → is_octal c ≡ true
    → b ≡ c - b'0'
    → Closed t
    → escape (c ∷ t) ≡ (b ∷ [], t)
escape-one c b t h v o =
    let small : (c - b'0') % 256 ≡ b = ground arith in
    let digits = octal-Closed 2 (c - b'0') t o in escape-octal c t h ∙ rw (digits, small) refl

escape-two :
    (c d b : ℕ) (t : Text)
    → (is_octal c && is_octal d) ≡ true
    → b ≡ (c - b'0') * 8 + (d - b'0')
    → Closed t
    → escape (c ∷ d ∷ t) ≡ (b ∷ [], t)
escape-two c d b t h v o =
    let first : is_octal c ≡ true = ground arith in
    let second : is_octal d ≡ true = ground arith in
    let small : ((c - b'0') * 8 + (d - b'0')) % 256 ≡ b = ground arith in
    let digits = octal-digit 1 (c - b'0') d t second ∙ octal-Closed 1 _ t o in
    escape-octal c (d ∷ t) first ∙ rw (digits, small) refl

escape-three :
    (c d e b : ℕ) (t : Text)
    → (is_octal c && (is_octal d && is_octal e)) ≡ true
    → b ≡ ((c - b'0') * 8 + (d - b'0')) * 8 + (e - b'0')
    → b < 256
    → escape (c ∷ d ∷ e ∷ t) ≡ (b ∷ [], t)
unfolding octal
escape-three c d e b t h v s =
    let first : is_octal c ≡ true = ground arith in
    let second : is_octal d ≡ true = ground arith in
    let third : is_octal e ≡ true = ground arith in
    let small : (((c - b'0') * 8 + (d - b'0')) * 8 + (e - b'0')) % 256 ≡ b = omega arith in
    let digits = octal-digit 1 (c - b'0') d (e ∷ t) second ∙ octal-digit 0 _ e t third in
    escape-octal c (d ∷ e ∷ t) first ∙ rw (digits, small) refl

escape-Short : (c b : ℕ) (t : Text) → Short c b → escape (c ∷ t) ≡ (b ∷ [], t)
unfolding escape
escape-Short c b t newline = refl
escape-Short c b t tab = refl
escape-Short c b t carriage_return = refl
escape-Short c b t vertical_tab = refl
escape-Short c b t form_feed = refl
escape-Short c b t quote = refl
escape-Short c b t backslash = refl

decode-escape :
    (fuel b : ℕ) (bs : List ℕ) (s t : Text)
    → escape s ≡ (b ∷ [], t)
    → decode fuel t ≡ bs
    → decode (suc fuel) (92 ∷ s) ≡ b ∷ bs
unfolding decode
decode-escape fuel b bs s t h g = rw h (ap (λ x. b ∷ x) g)

decode-plain :
    (fuel b : ℕ) (bs : List ℕ) (t : Text)
    → nat_beq b 92 ≡ false
    → decode fuel t ≡ bs
    → decode (suc fuel) (b ∷ t) ≡ b ∷ bs
unfolding decode
decode-plain fuel b bs t n g = rw (n, decode) (ap (λ x. b ∷ x) g)

decode-Rendering :
    (fuel : ℕ) {bs : List ℕ} {t : Text} → length t ≤ fuel → Rendering bs t → decode fuel t ≡ bs
unfolding decode
decode-Rendering zero l done = refl
decode-Rendering (suc fuel) l done = refl
decode-Rendering zero l (plain n r) = absurd (omega arith)
decode-Rendering zero l (short x r) = absurd (omega arith)
decode-Rendering zero l (octal_1 h v o r) = absurd (omega arith)
decode-Rendering zero l (octal_2 h v o r) = absurd (omega arith)
decode-Rendering zero l (octal_3 h v b r) = absurd (omega arith)
decode-Rendering (suc fuel) l (plain n r) =
    decode-plain fuel _ _ _ n (decode-Rendering fuel (omega arith) r)
decode-Rendering (suc fuel) l (short x r) =
    decode-escape fuel _ _ _ _ (escape-Short _ _ _ x) (decode-Rendering fuel (omega arith) r)
decode-Rendering (suc fuel) l (octal_1 h v o r) =
    decode-escape fuel _ _ _ _ (escape-one _ _ _ h v o) (decode-Rendering fuel (omega arith) r)
decode-Rendering (suc fuel) l (octal_2 h v o r) =
    decode-escape fuel _ _ _ _ (escape-two _ _ _ _ h v o) (decode-Rendering fuel (omega arith) r)
decode-Rendering (suc fuel) l (octal_3 h v b r) =
    decode-escape fuel _ _ _ _ (escape-three _ _ _ _ _ h v b)
      (decode-Rendering fuel (omega arith) r)

-- Decoding gives back the bytes, whichever of the renderings (as itself, short, or one to three
-- octal digits) was chosen for each of them.
pub decode_strace_bytes-Rendering :
    (bs : List ℕ) (t : Text) → Rendering bs t → decode_strace_bytes t ≡ bs
unfolding decode_strace_bytes
decode_strace_bytes-Rendering bs t r = decode-Rendering (length t) (omega arith) r
