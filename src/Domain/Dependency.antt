-- ===== src/Domain/Dependency.antt =====
-- crates/ovid-domain/src/dependency.rs: the typed identity of a dependency and its derived order.
use ovid.Prelude.{
  ℕ, ◌≡◌, ap, ◌↔◌, ◌⊎◌, Bool, true, ◌&&◌, ◌++◌, arith, Text, lit, IsEq, ltb, nat_beq, text_eq,
  if◌then◌else◌,
}
use ovid.Prelude.Order.{TotalOrder, text_order}

-- `package_kind` is `Package`.
pub data DependencyKind : Type 0 where
  package_kind executable shared_library file environment_variable : DependencyKind
  network_service unix_socket listener cloud_resource build_artifact : DependencyKind

-- The place of the variant, by which the derived `Ord` compares.
unfoldable pub kind_rank : DependencyKind → ℕ
kind_rank package_kind = 0
kind_rank executable = 1
kind_rank shared_library = 2
kind_rank file = 3
kind_rank environment_variable = 4
kind_rank network_service = 5
kind_rank unix_socket = 6
kind_rank listener = 7
kind_rank cloud_resource = 8
kind_rank build_artifact = 9

pub record DependencyKey : Type 0 where
  pub kind : DependencyKind
  pub logical_identity : Text

unfoldable pub network : Text → DependencyKey
network identity = record { kind = network_service; logical_identity = identity }

unfoldable pub executable_key : Text → DependencyKey
executable_key name = record { kind = executable; logical_identity = name }

unfoldable pub env_var : Text → DependencyKey
env_var name = record { kind = environment_variable; logical_identity = name }

kind_label : DependencyKind → Text
kind_label package_kind = lit "package"
kind_label executable = lit "executable"
kind_label shared_library = lit "shared-library"
kind_label file = lit "file"
kind_label environment_variable = lit "env"
kind_label network_service = lit "service"
kind_label unix_socket = lit "unix-socket"
kind_label listener = lit "listener"
kind_label cloud_resource = lit "cloud"
kind_label build_artifact = lit "artifact"

unfoldable pub describe : DependencyKey → Text
unfolding kind_label
describe k = kind_label k.kind ++ (lit ":" ++ k.logical_identity)

kind_rank-injective : (a b : DependencyKind) → kind_rank a ≡ kind_rank b → a ≡ b
unfolding kind_rank
kind_rank-injective a b h = ground arith

unfoldable pub key_beq : DependencyKey → DependencyKey → Bool
key_beq a b =
    nat_beq (kind_rank a.kind) (kind_rank b.kind)
    && text_eq.beq a.logical_identity b.logical_identity

pub key_beq_iff : (a b : DependencyKey) → (key_beq a b ≡ true) ↔ (a ≡ b)
unfolding key_beq
key_beq_iff a b = (
  λ h. ground (
    arith,
    kind_rank-injective a.kind b.kind,
    text_eq.beq_iff a.logical_identity b.logical_identity,
  ),
  λ p. ground (
    arith,
    text_eq.beq_iff a.logical_identity b.logical_identity,
    ap (λ (k : DependencyKey). kind_rank k.kind) p,
    ap (λ (k : DependencyKey). k.logical_identity) p,
  ),
)

instance abbrev pub key_eq : IsEq DependencyKey
key_eq = record { beq = key_beq; beq_iff = key_beq_iff }

-- The derived `Ord`: the kind first, then the identity.
unfoldable pub key_le : DependencyKey → DependencyKey → Bool
key_le a b =
    if nat_beq (kind_rank a.kind) (kind_rank b.kind)
    then text_order.le a.logical_identity b.logical_identity
    else ltb (kind_rank a.kind) (kind_rank b.kind)

pub key_le_total : (a b : DependencyKey) → (key_le a b ≡ true) ⊎ (key_le b a ≡ true)
unfolding key_le
key_le_total a b = ground (arith, text_order.le_total a.logical_identity b.logical_identity)

pub key_le_trans :
    (a b c : DependencyKey) → key_le a b ≡ true → key_le b c ≡ true → key_le a c ≡ true
unfolding key_le
key_le_trans a b c h k =
    ground (arith, text_order.le_trans a.logical_identity b.logical_identity c.logical_identity)

pub key_le_antisymm : (a b : DependencyKey) → key_le a b ≡ true → key_le b a ≡ true → a ≡ b
unfolding key_le
key_le_antisymm a b h k = ground (
  arith,
  kind_rank-injective a.kind b.kind,
  text_order.le_antisymm a.logical_identity b.logical_identity,
)

instance abbrev pub key_order : TotalOrder DependencyKey
key_order = record {
  le = key_le;
  le_total = key_le_total;
  le_trans = key_le_trans;
  le_antisymm = key_le_antisymm;
}
