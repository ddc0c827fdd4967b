-- ===== src/Discover/Registry/Effects.antt =====
-- discover/server.go: what the loops that edit the maps do to the lists under each name.
use mathlib.Core.List.{concat-ne-nil}
use g_micor.Base.{
  if_intro, String, ◌≡◌, ◌≢◌, ◌⊎◌, inl, inr, false, ◌&&◌, ◌||◌, Option, some, List, [], ◌∷◌, ◌++◌,
  Dict, lookup, insert, delete, elem, remove_first, Distinct, arith, str_eq, eq_iff, str_eq_refl,
  lookup-insert, lookup-delete, elem-snoc, Distinct-snoc, elem-remove_first, remove_first-absent,
  Distinct-remove_first, if◌then◌else◌,
}
use g_micor.Discover.Registry.{read, add_new, add_addresses, drop_address, drop_addresses}

abbrev pub AllDistinct : Dict (List String) → Type 0
AllDistinct m = (name : String) → Distinct (read m name)

-- No key is kept with an empty list.
abbrev pub NoneEmpty : Dict (List String) → Type 0
NoneEmpty m = (name : String) → lookup name m ≢ some []

pub read-insert :
    (k j : String) (v : List String) (m : Dict (List String))
    → read (insert k v m) j ≡ (if str_eq k j then v else read m j)
read-insert k j v m = ground (arith, lookup-insert k j v m)

pub read-delete :
    (k j : String) (m : Dict (List String))
    → read (delete k m) j ≡ (if str_eq k j then [] else read m j)
read-delete k j m = ground (arith, lookup-delete k j m)

pub elem-add_new :
    (key addr : String) (m : Dict (List String)) (a name : String)
    → elem a (read (add_new key addr m) name)
      ≡ (elem a (read m name) || (str_eq key name && str_eq addr a))
unfolding add_new
elem-add_new key addr m a name = ground (
  arith,
  read-insert key name (read m key ++ addr ∷ []) m,
  elem-snoc a addr (read m key),
  eq_iff key name,
  eq_iff addr a,
)

pub add_new-AllDistinct :
    (key addr : String) (m : Dict (List String)) → AllDistinct m → AllDistinct (add_new key addr m)
unfolding add_new
add_new-AllDistinct key addr m d name =
    if_intro (λ x. Distinct (read x name)) (elem addr (read m key)) m
      (insert key (read m key ++ addr ∷ []) m) (λ _. d name)
      λ fresh. rw read-insert (
        if_intro Distinct (str_eq key name) _ _ (λ _. Distinct-snoc addr (read m key) (d key) fresh)
          (λ _. d name))

pub add_new-NoneEmpty :
    (key addr : String) (m : Dict (List String)) → NoneEmpty m → NoneEmpty (add_new key addr m)
unfolding add_new
add_new-NoneEmpty key addr m d name =
    if_intro (λ x. lookup name x ≢ some []) (elem addr (read m key)) m
      (insert key (read m key ++ addr ∷ []) m) (λ _. d name)
      λ _. rw lookup-insert (
        if_intro (λ (o : Option (List String)). o ≢ some []) (str_eq key name) _ _
          (λ _ e. concat-ne-nil addr (read m key) (cc)) (λ _. d name))

pub elem-add_addresses :
    (names : List String) (addr : String) (m : Dict (List String)) (a name : String)
    → elem a (read (add_addresses names addr m) name)
      ≡ (elem a (read m name) || (elem name names && str_eq addr a))
unfolding add_addresses elem
elem-add_addresses [] addr m a name = ground arith
elem-add_addresses (k ∷ names) addr m a name =
    ground
      (arith, elem-add_addresses names addr (add_new k addr m) a name, elem-add_new k addr m a name)

pub add_addresses-AllDistinct :
    (names : List String) (addr : String) (m : Dict (List String))
    → AllDistinct m
    → AllDistinct (add_addresses names addr m)
unfolding add_addresses
add_addresses-AllDistinct [] addr m d = d
add_addresses-AllDistinct (k ∷ names) addr m d =
    add_addresses-AllDistinct names addr (add_new k addr m) (add_new-AllDistinct k addr m d)

pub add_addresses-NoneEmpty :
    (names : List String) (addr : String) (m : Dict (List String))
    → NoneEmpty m
    → NoneEmpty (add_addresses names addr m)
unfolding add_addresses
add_addresses-NoneEmpty [] addr m d = d
add_addresses-NoneEmpty (k ∷ names) addr m d =
    add_addresses-NoneEmpty names addr (add_new k addr m) (add_new-NoneEmpty k addr m d)

pub elem-drop_address :
    (addr key : String) (m : Dict (List String)) (a name : String)
    → AllDistinct m
    → elem a (read (drop_address addr key m) name)
      ≡ (if str_eq key name && str_eq addr a then false else elem a (read m name))
unfolding drop_address elem remove_first
elem-drop_address addr key m a name d = ground (
  arith,
  read-insert key name (remove_first addr (read m key)) m,
  read-insert key key (remove_first addr (read m key)) m,
  read-delete key name (insert key (remove_first addr (read m key)) m),
  read-delete key name m,
  elem-remove_first addr a (read m key) (d key),
  str_eq_refl key,
  eq_iff key name,
  eq_iff addr a,
)

-- A list of the map after `drop_address` is one of the map before, or that with the address taken off.
read-drop_address :
    (addr key : String) (m : Dict (List String)) (name : String)
    → (read (drop_address addr key m) name ≡ read m name)
      ⊎ (read (drop_address addr key m) name ≡ remove_first addr (read m name))
unfolding drop_address
read-drop_address addr key m name = ground (
  arith,
  read-insert key name (remove_first addr (read m key)) m,
  read-insert key key (remove_first addr (read m key)) m,
  read-delete key name (insert key (remove_first addr (read m key)) m),
  read-delete key name m,
  remove_first-absent addr (read m key),
  str_eq_refl key,
  eq_iff key name,
)

pub drop_address-AllDistinct :
    (addr key : String) (m : Dict (List String))
    → AllDistinct m
    → AllDistinct (drop_address addr key m)
drop_address-AllDistinct addr key m d name = elim (read-drop_address addr key m name) [
  | inl e ↦ rw e (d name)
  | inr e ↦ rw e (Distinct-remove_first addr (read m name) (d name))
]

pub drop_address-NoneEmpty :
    (addr key : String) (m : Dict (List String)) → NoneEmpty m → NoneEmpty (drop_address addr key m)
unfolding drop_address
drop_address-NoneEmpty addr key m d name e = ground (
  arith,
  lookup-insert key name (remove_first addr (read m key)) m,
  lookup-insert key key (remove_first addr (read m key)) m,
  lookup-delete key name (insert key (remove_first addr (read m key)) m),
  lookup-delete key name m,
  str_eq_refl key,
  eq_iff key name,
  d name,
)

pub elem-drop_addresses :
    (names : List String) (addr : String) (m : Dict (List String)) (a name : String)
    → AllDistinct m
    → elem a (read (drop_addresses names addr m) name)
      ≡ (if elem name names && str_eq addr a then false else elem a (read m name))
unfolding drop_addresses elem
elem-drop_addresses [] addr m a name d = ground arith
elem-drop_addresses (k ∷ names) addr m a name d = ground (
  arith,
  elem-drop_addresses names addr (drop_address addr k m) a name
      (drop_address-AllDistinct addr k m d),
  elem-drop_address addr k m a name d,
)

pub drop_addresses-AllDistinct :
    (names : List String) (addr : String) (m : Dict (List String))
    → AllDistinct m
    → AllDistinct (drop_addresses names addr m)
unfolding drop_addresses
drop_addresses-AllDistinct [] addr m d = d
drop_addresses-AllDistinct (k ∷ names) addr m d =
    drop_addresses-AllDistinct names addr (drop_address addr k m)
      (drop_address-AllDistinct addr k m d)

pub drop_addresses-NoneEmpty :
    (names : List String) (addr : String) (m : Dict (List String))
    → NoneEmpty m
    → NoneEmpty (drop_addresses names addr m)
unfolding drop_addresses
drop_addresses-NoneEmpty [] addr m d = d
drop_addresses-NoneEmpty (k ∷ names) addr m d =
    drop_addresses-NoneEmpty names addr (drop_address addr k m) (drop_address-NoneEmpty addr k m d)
