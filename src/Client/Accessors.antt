-- ===== src/Client/Accessors.antt =====
-- The accessors of the sub-clients, src/client.cpp. Each holds `sub_clients_mutex_` for its whole body, so a
-- call is one step, whichever thread makes it.
use audd_cpp.Prelude.{
  ℕ, suc, ◌+◌, ◌≤◌, ◌<◌, ◌≡◌, refl, Option, none, some, List, [], ◌∷◌, arith, All,
}

pub data Accessor : Type 0 where
  streams custom_catalog advanced : Accessor

-- The three pointers, as addresses, and how many sub-clients were made.
pub record SubClients : Type 0 where
  pub streams : Option ℕ
  pub custom_catalog : Option ℕ
  pub advanced : Option ℕ
  pub made : ℕ

abbrev pub no_sub_clients : SubClients
no_sub_clients = record { streams = none; custom_catalog = none; advanced = none; made = 0 }

abbrev pub slot : Accessor → SubClients → Option ℕ
slot streams s = s.streams
slot custom_catalog s = s.custom_catalog
slot advanced s = s.advanced

-- `if (!streams_) streams_ = std::make_unique<StreamsClient>(this)`, at an address that none has.
unfoldable pub construct : Accessor → SubClients → SubClients
construct streams s = record s { streams = some s.made; made = suc s.made }
construct custom_catalog s = record s { custom_catalog = some s.made; made = suc s.made }
construct advanced s = record s { advanced = some s.made; made = suc s.made }

unfoldable pub access : Accessor → SubClients → ℕ × SubClients
unfolding construct
access a s = elim (slot a s) [ some address ↦ (address, s) | none ↦ (s.made, construct a s) ]

-- The calls in the order in which they get the mutex: what each returns, and the pointers behind the last.
unfoldable pub answers : List Accessor → SubClients → List (Accessor × ℕ)
unfolding access
answers [] s = []
answers (a ∷ calls) s = let (address, next) = access a s in (a, address) ∷ answers calls next

unfoldable pub accessed : List Accessor → SubClients → SubClients
unfolding access
accessed [] s = s
accessed (a ∷ calls) s = accessed calls (access a s).1

-- How many pointers are set.
abbrev is_set : Option ℕ → ℕ
is_set none = 0
is_set (some address) = 1

record IsSound (s : SubClients) : Type 0 where
  counted : s.made ≡ is_set s.streams + is_set s.custom_catalog + is_set s.advanced
  below : (a : Accessor) (n : ℕ) → slot a s ≡ some n → n < s.made
  apart : (a b : Accessor) (n : ℕ) → slot a s ≡ some n → slot b s ≡ some n → a ≡ b

access-counted :
    (a : Accessor) (s : SubClients)
    → IsSound s
    → let t = (access a s).1 in
      t.made ≡ is_set t.streams + is_set t.custom_catalog + is_set t.advanced
unfolding access
access-counted streams s c = ground (arith, c.counted)
access-counted a s c = ground (arith, c.counted)

access-below :
    (a : Accessor) (s : SubClients)
    → IsSound s
    → (b : Accessor) (n : ℕ) → slot b (access a s).1 ≡ some n
    → n < (access a s).1.made
unfolding access
access-below streams s c streams n h = ground (arith, c.below streams n)
access-below a s c b n h = ground (arith, c.below b n)

access-apart :
    (d : Accessor) (s : SubClients)
    → IsSound s
    → (a b : Accessor) (n : ℕ) → slot a (access d s).1 ≡ some n
    → slot b (access d s).1 ≡ some n
    → a ≡ b
unfolding access
access-apart streams s c streams streams n h k = refl
access-apart d s c a b n h k = ground (arith, c.apart a b n, c.below a n, c.below b n)

access-keeps :
    (d : Accessor) (s : SubClients) (a : Accessor) (n : ℕ)
    → slot a s ≡ some n
    → slot a (access d s).1 ≡ some n
unfolding access
access-keeps streams s streams n h = ground arith
access-keeps d s a n h = ground arith

access-slot : (a : Accessor) (s : SubClients) → slot a (access a s).1 ≡ some (access a s).0
unfolding access
access-slot streams s = ground arith
access-slot a s = ground arith

accessed-keeps :
    (calls : List Accessor) (s : SubClients) (a : Accessor) (n : ℕ)
    → slot a s ≡ some n
    → slot a (accessed calls s) ≡ some n
unfolding accessed
accessed-keeps [] s a n h = h
accessed-keeps (d ∷ calls) s a n h =
    accessed-keeps calls (access d s).1 a n (access-keeps d s a n h)

accessed-IsSound : (calls : List Accessor) (s : SubClients) → IsSound s → IsSound (accessed calls s)
unfolding accessed
accessed-IsSound [] s c = c
accessed-IsSound (a ∷ calls) s c = accessed-IsSound calls (access a s).1 (record {
  counted = access-counted a s c;
  below = access-below a s c;
  apart = access-apart a s c;
})

answers-slot :
    (calls : List Accessor) (s : SubClients)
    → All (λ r. slot r.0 (accessed calls s) ≡ some r.1) (answers calls s)
unfolding accessed answers
answers-slot [] s = tt
answers-slot (a ∷ calls) s = (
  accessed-keeps calls (access a s).1 a (access a s).0 (access-slot a s),
  answers-slot calls (access a s).1,
)

few : (s : SubClients) → IsSound s → s.made ≤ 3
few s c = ground (arith, c.counted)

no_sub_clients-IsSound : IsSound no_sub_clients
no_sub_clients-IsSound = record {
  counted = refl;
  below = λ a n h. ground arith;
  apart = λ a b n h k. ground arith;
}

-- However often and in whatever order the accessors are called: all calls of one of them return the same
-- sub-client, the one that its pointer has in the end; those of two of them are different; and three at
-- most are made.
pub answers-accessed :
    (calls : List Accessor)
    → let s = accessed calls no_sub_clients in
      All (λ r. slot r.0 s ≡ some r.1) (answers calls no_sub_clients)
      × ((a b : Accessor) (n : ℕ) → slot a s ≡ some n → slot b s ≡ some n → a ≡ b)
      × (s.made ≤ 3)
answers-accessed calls =
    let c = accessed-IsSound calls no_sub_clients no_sub_clients-IsSound in
    (answers-slot calls no_sub_clients, c.apart, few _ c)
