-- ===== src/Observer/Dns/Addresses.antt =====
-- The text of an address, `IpAddr::to_string` of the standard library, for the answers of
-- crates/ovid-observer/src/dns.rs: an IPv6 address leaves out its first longest run of zero
-- segments.
use ovid.Prelude.{
  ◌≡◌, refl, ℕ, zero, suc, ◌+◌, ◌-◌, ◌*◌, ◌/◌, ◌%◌, Bool, ◌&&◌, List, [], ◌∷◌, ◌++◌, Text, lit,
  show, join, map, ltb, nat_beq, length, take, drop, list_beq, nat_eq, if◌then◌else◌,
}
use ovid.Observer.Dns.Packets.{IpAddr, v4, v6}

show_v4 : List ℕ → Text
show_v4 bytes = join (lit ".") (map show bytes)

segments : List ℕ → List ℕ
segments (high ∷ low ∷ rest) = (high * 256 + low) ∷ segments rest
segments _ = []

hex_digit : ℕ → ℕ
hex_digit d = if ltb d 10 then b'0' + d else b'a' + (d - 10)

-- A segment is below 16^4; leading zeros are left out.
hex_digits : ℕ → ℕ → Text
unfolding hex_digit
hex_digits zero n = []
hex_digits (suc k) n =
    let high = hex_digits k (n / 16) in
    if ltb n 16 then hex_digit n ∷ [] else high ++ (hex_digit (n % 16) ∷ [])

show_segments : List ℕ → Text
unfolding hex_digits
show_segments xs = join (lit ":") (map (hex_digits 4) xs)

-- A run of zeros: where it begins and how long it is.
record Run : Type 0 where
  start : ℕ
  size : ℕ

longer : Run → Run → Run
longer best run = if ltb best.size run.size then run else best

-- The first longest run from a place on, given the run that ends there.
longest_zeros : Run → Run → ℕ → List ℕ → Run
unfolding longer
longest_zeros best run place [] = longer best run
longest_zeros best run place (x ∷ xs) =
    let on = longest_zeros best (record run { size = run.size + 1 }) (place + 1) xs in
    let off =
      longest_zeros (longer best run) (record { start = place + 1; size = 0 }) (place + 1) xs in
    if nat_beq x 0 then on else off

no_run : Run
no_run = record { start = 0; size = 0 }

compressed : List ℕ → Run → Text
unfolding show_segments
compressed xs run =
    if ltb 1 run.size
    then show_segments (take run.start xs)
      ++ (lit "::" ++ show_segments (drop (run.start + run.size) xs))
    else show_segments xs

-- `::ffff:a.b.c.d`
is_mapped : List ℕ → Bool
is_mapped bytes =
    list_beq (take 12 bytes) (0 ∷ 0 ∷ 0 ∷ 0 ∷ 0 ∷ 0 ∷ 0 ∷ 0 ∷ 0 ∷ 0 ∷ 255 ∷ 255 ∷ [])
    && nat_beq (length bytes) 16

unfoldable pub show_address : IpAddr → Text
unfolding show_v4 segments longest_zeros no_run compressed is_mapped list_beq
show_address (v4 bytes) = show_v4 bytes
show_address (v6 bytes) =
    if is_mapped bytes
    then lit "::ffff:" ++ show_v4 (drop 12 bytes)
    else compressed (segments bytes) (longest_zeros no_run no_run 0 (segments bytes))

-- The documentation address of RFC 5952.
show_v6_example :
    show_address (v6 (32 ∷ 1 ∷ 13 ∷ 184 ∷ 0 ∷ 0 ∷ 0 ∷ 0 ∷ 0 ∷ 0 ∷ 0 ∷ 0 ∷ 0 ∷ 0 ∷ 0 ∷ 1 ∷ []))
    ≡ lit "2001:db8::1"
unfolding show_address lit show join
show_v6_example = refl
