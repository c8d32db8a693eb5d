-- ===== src/Proto/Fixtures.antt =====
-- Data that the examples of the protocols share: a list of endpoints, their pipes, a world, a byte
-- order.
use scaproust.Prelude.{
  List, ◌++◌, ◌/◌, ◌%◌, ◌^◌, ◌*◌, ◌+◌, inr, ℕ, zero, suc, ◌≡◌, ◌≤◌, refl, sym, ◌∙◌, true, false,
  none, some, [], ◌∷◌, arith, get_elem?,
}
use scaproust.Core.Message.{Message}
use scaproust.Core.Bytes.{ByteOrder, IsByteOrder}
use scaproust.Core.Endpoint.{Pipe, EndpointDesc, new_accepted}
use scaproust.Core.Context.{World, IoError, other}
use scaproust.Core.Socket.Local.{Network}
use scaproust.Proto.Priolist.{Item, Priolist}
use scaproust.Proto.Priolist.Invariant.{IsValid}
use scaproust.Proto.Pipes
use scaproust.Proto.Pipes.{PipeCollection}
use scaproust.Proto.Policy.Covered.{IsCovered}

-- Endpoints 1 and 2 are ready at priority 8, endpoint 3 is not ready; 1 is current.
abbrev pub ready_list : Priolist
ready_list = record {
  items =
      record { value = 1; priority = 8; active = true }
      ∷ record { value = 2; priority = 8; active = true }
      ∷ record { value = 3; priority = 9; active = false }
      ∷ [];
  current = some (0, 8);
}

at_most : (j : ℕ) (x : Item) → get_elem? ready_list.items j ≡ some x → x.priority ≤ 16
at_most zero x e = ground arith
at_most (suc zero) x e = ground arith
at_most (suc (suc zero)) x e = ground arith
at_most (suc (suc (suc j))) x e = absurd (cc)

pub named : (j : ℕ) (x : Item) → get_elem? ready_list.items j ≡ some x → x.value ≡ suc j
named zero x e = ground arith
named (suc zero) x e = ground arith
named (suc (suc zero)) x e = ground arith
named (suc (suc (suc j))) x e = absurd (cc)

not_better : (j : ℕ) (x : Item) → get_elem? ready_list.items j ≡ some x → 8 ≤ x.priority
not_better zero x e = ground arith
not_better (suc zero) x e = ground arith
not_better (suc (suc zero)) x e = ground arith
not_better (suc (suc (suc j))) x e = absurd (cc)

pub ready_list-IsValid : IsValid ready_list
ready_list-IsValid = record {
  bounded = at_most;
  distinct = λ i j x y e f same. omega (arith, named i x e, named j y f);
  best = (omega arith, (_, refl, refl, refl), λ j x e on lo up. omega (arith, not_better j x e));
}

abbrev pub desc : EndpointDesc
desc = record { send_priority = 8; recv_priority = 8; tcp_no_delay = false; recv_max_size = 0 }

abbrev pub ready_pipes : PipeCollection
ready_pipes = (1, new_accepted 1 desc) ∷ (2, new_accepted 2 desc) ∷ (3, new_accepted 3 desc) ∷ []

has_pipes :
    (j : ℕ) (x : Item)
    → get_elem? ready_list.items j ≡ some x
    → (p : Pipe) × (Pipes.get ready_pipes x.value ≡ some p) × (p.id ≡ x.value)
unfolding Pipes.get
has_pipes zero x e = (new_accepted 1 desc, ground arith, ground arith)
has_pipes (suc zero) x e = (new_accepted 2 desc, ground arith, ground arith)
has_pipes (suc (suc zero)) x e = (new_accepted 3 desc, ground arith, ground arith)
has_pipes (suc (suc (suc j))) x e = absurd (cc)

pub ready_list-IsCovered : IsCovered ready_list ready_pipes
ready_list-IsCovered = record { valid = ready_list-IsValid; has_pipes = has_pipes }

-- The same endpoints before any is ready.
abbrev pub quiet_list : Priolist
quiet_list = record {
  items =
      record { value = 1; priority = 8; active = false }
      ∷ record { value = 2; priority = 8; active = false }
      ∷ [];
  current = none;
}

pub quiet_list-IsCovered : IsCovered quiet_list ready_pipes
unfolding Pipes.get
quiet_list-IsCovered = record {
  valid = record {
    bounded = λ j x e. omega (arith, (entry j x e).1);
    distinct = λ i j x y e f same. omega (arith, (entry i x e).0, (entry j y f).0);
    best = λ j x e on lo up. cc (sym (entry j x e).2 ∙ on);
  };
  has_pipes = pipes;
}
  where
    entry :
        (j : ℕ) (x : Item)
        → get_elem? quiet_list.items j ≡ some x
        → (x.value ≡ suc j) × (x.priority ≡ 8) × (x.active ≡ false)
    entry zero x e = (ground arith, ground arith, ground arith)
    entry (suc zero) x e = (ground arith, ground arith, ground arith)
    entry (suc (suc j)) x e = absurd (cc)

    pipes :
        (j : ℕ) (x : Item)
        → get_elem? quiet_list.items j ≡ some x
        → (p : Pipe) × (Pipes.get ready_pipes x.value ≡ some p) × (p.id ≡ x.value)
    pipes zero x e = (new_accepted 1 desc, ground arith, ground arith)
    pipes (suc zero) x e = (new_accepted 2 desc, ground arith, ground arith)
    pipes (suc (suc j)) x e = absurd (cc)

abbrev pub hello : Message
hello = record { header = []; body = 104 ∷ 105 ∷ [] }

-- A world in which every timer is granted, under one number.
abbrev pub world : World
world = record { log = []; timer = λ log task delay. some 7 }

-- A network that grants every endpoint.
abbrev pub refused : IoError
refused = record { kind = other; text = "refused" }

abbrev pub network : Network
network = record {
  connect = λ log tmpl. inr 9;
  bind = λ log tmpl. inr 9;
  reconnect = λ log eid tmpl. true;
  rebind = λ log eid tmpl. true;
  timer_error = λ log task delay. refused;
}

-- The most significant byte first.
abbrev pub big_u32 : ℕ → List ℕ
big_u32 n = n / 2 ^ 24 ∷ n / 2 ^ 16 % 256 ∷ n / 2 ^ 8 % 256 ∷ n % 256 ∷ []

abbrev pub from_bytes : ℕ → List ℕ → ℕ
from_bytes acc [] = acc
from_bytes acc (b ∷ bs) = from_bytes (acc * 256 + b) bs

abbrev pub big_endian : ByteOrder
big_endian = record {
  write_u16 = λ n. n / 256 % 256 ∷ n % 256 ∷ [];
  read_u16 = from_bytes 0;
  write_u32 = big_u32;
  read_u32 = from_bytes 0;
  write_u64 = λ n. big_u32 (n / 2 ^ 32) ++ big_u32 (n % 2 ^ 32);
  read_u64 = from_bytes 0;
}

pub big_endian-IsByteOrder : IsByteOrder big_endian
big_endian-IsByteOrder = record {
  length-write_u16 = λ n. refl;
  read_u16-write_u16 = λ n h. omega arith;
  length-write_u32 = λ n. refl;
  read_u32-write_u32 = λ n h. omega arith;
  bytes-write_u32 = λ n h. refl;
  length-write_u64 = λ n. refl;
  read_u64-write_u64 = λ n h. omega arith;
}
