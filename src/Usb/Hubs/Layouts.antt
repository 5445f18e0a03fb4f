-- ===== src/Usb/Hubs/Layouts.antt =====
-- The physical ports of a hub are found along the paths of its layout.
use udroid.Prelude.{
  ℕ, Bool, true, false, not, ◌&&◌, Option, none, some, List, [], ◌∷◌, ◌++◌, Text, codes, text_eq,
  if◌then◌else◌, ◌==◌, Table, get, put, is_some, DecidesEq, get-put, ◌≡◌, refl, sym, ap, ◌∙◌, arith,
  inl, inr, Bool-cases, subst,
}
use udroid.Prelude.Effects.{Outcome, ok, err}
use udroid.Usb.{UsbError, Node, ports_of, device_at}
use udroid.Usb.Building.{same_number, and_then}
use udroid.Usb.Hubs.{
  Physical, physical, inner, Layout, end, virtual, HubType, get_hub_type, gpp_helper, gpp_port,
  tuples_if, is_type, get_physical_port_to_node_tuples, mapped, entries_of, dict_of,
  get_physical_port_to_node_map,
}

-- Where a physical port is: the virtual ports that lead to it.
abbrev pub PathTo : Type 0
PathTo = List ℕ × ℕ

abbrev pub within : ℕ → List PathTo → List PathTo
within v [] = []
within v ((path, p) ∷ paths) = (v ∷ path, p) ∷ within v paths

abbrev mutual
  pub paths : Layout → List PathTo
  paths end = []
  paths (virtual v p layout) = within v (paths_in p) ++ paths layout

  pub paths_in : Physical → List PathTo
  paths_in (physical port) = ([], port) ∷ []
  paths_in (inner layout) = paths layout

-- The device that a path leads to.
abbrev pub follow : List ℕ → Option Node → Option Node
follow [] m = m
follow (v ∷ path) none = none
follow (v ∷ path) (some n) = follow path (device_at v (ports_of n))

-- The path to a physical port.
abbrev pub path_to : ℕ → List PathTo → Option (List ℕ)
path_to port [] = none
path_to port ((path, p) ∷ ps) = if port == p then some path else path_to port ps

abbrev pub device_on : Option Node → Option (List ℕ) → Option Node
device_on hub none = none
device_on hub (some path) = follow path hub

abbrev found : ℕ → Option Node → List (ℕ × Node) → List (ℕ × Node)
found p none rest = rest
found p (some child) rest = (p, child) ∷ rest

-- What the paths lead to.
abbrev along : Option Node → List PathTo → List (ℕ × Node)
along m [] = []
along m ((path, p) ∷ ps) = found p (follow path m) (along m ps)

along-none : (ps : List PathTo) → along none ps ≡ []
along-none [] = refl
along-none (([], p) ∷ ps) = along-none ps
along-none ((v ∷ path, p) ∷ ps) = along-none ps

found-append :
    (p : ℕ) (m : Option Node) (xs ys : List (ℕ × Node)) → found p m (xs ++ ys) ≡ found p m xs ++ ys
found-append p none xs ys = refl
found-append p (some child) xs ys = refl

along-append :
    (m : Option Node) (ps qs : List PathTo) → along m (ps ++ qs) ≡ along m ps ++ along m qs
along-append m [] qs = refl
along-append m ((path, p) ∷ ps) qs =
    ap (found p (follow path m)) (along-append m ps qs)
    ∙ found-append p (follow path m) (along m ps) (along m qs)

along-within :
    (n : Node) (v : ℕ) (ps : List PathTo)
    → along (some n) (within v ps) ≡ along (device_at v (ports_of n)) ps
along-within n v [] = refl
along-within n v ((path, p) ∷ ps) =
    ap (found p (follow path (device_at v (ports_of n)))) (along-within n v ps)

mutual
  unfolding gpp_helper

  gpp_helper-along :
      (n : Node) (layout : Layout) → gpp_helper n layout ≡ along (some n) (paths layout)
  gpp_helper-along n end = refl
  gpp_helper-along n (virtual v p layout) =
      rw (gpp_port-along (device_at v (ports_of n)) p, gpp_helper-along n layout)
        (ap (λ (xs : List (ℕ × Node)). xs ++ along (some n) (paths layout))
            (sym (along-within n v (paths_in p)))
          ∙ sym (along-append (some n) (within v (paths_in p)) (paths layout)))

  gpp_port-along : (m : Option Node) (p : Physical) → gpp_port m p ≡ along m (paths_in p)
  gpp_port-along none (physical port) = refl
  gpp_port-along none (inner layout) = sym (along-none (paths layout))
  gpp_port-along (some child) (physical port) = refl
  gpp_port-along (some child) (inner layout) = gpp_helper-along child layout

-- No port is on two of the paths.
abbrev no_repeat : List PathTo → Bool
no_repeat [] = true
no_repeat ((path, p) ∷ ps) = not (is_some (path_to p ps)) && no_repeat ps

same_number-DecidesEq : DecidesEq same_number
same_number-DecidesEq = record { same-eq = λ a b h. ground arith; same_refl = λ a. ground arith }

same-port : (a b : ℕ) → (a == b) ≡ true → a ≡ b
same-port a b h = ground arith

abbrev or_get : Option Node → Option Node → Option Node
or_get none other = other
or_get (some n) other = some n

get-dict_of :
    (m : Option Node) (ps : List PathTo) (t : Table ℕ Node) (port : ℕ)
    → no_repeat ps ≡ true
    → get same_number port (dict_of t (along m ps))
      ≡ or_get (device_on m (path_to port ps)) (get same_number port t)
get-dict_of m [] t port h = refl
get-dict_of m ((path, p) ∷ ps) t port h =
    go (λ (u : Table ℕ Node). get-dict_of m ps u port rest) (follow path m) refl
  where
    fresh : is_some (path_to p ps) ≡ false
    fresh = ground arith

    rest : no_repeat ps ≡ true
    rest = ground arith

    elsewhere :
        (found_path : Option (List ℕ)) → is_some found_path ≡ false → device_on m found_path ≡ none
    elsewhere none e = refl
    elsewhere (some q) e = cc

    none_at : (port == p) ≡ true → device_on m (path_to port ps) ≡ none
    none_at q =
        ap (λ (k : ℕ). device_on m (path_to k ps)) (same-port port p q)
        ∙ elsewhere (path_to p ps) fresh

    go :
        ((u : Table ℕ Node)
          → get same_number port (dict_of u (along m ps))
            ≡ or_get (device_on m (path_to port ps)) (get same_number port u))
        → (child : Option Node) → follow path m ≡ child
        → get same_number port (dict_of t (found p child (along m ps)))
          ≡ or_get
              (device_on m (if port == p then some path else path_to port ps))
              (get same_number port t)
    go ih none e = elim (Bool-cases (port == p)) [
      | inl q ↦
          rw (q, e) (ih t ∙ ap (λ (x : Option Node). or_get x (get same_number port t)) (none_at q))
      | inr q ↦ rw q (ih t)
    ]
    go ih (some c) e = elim (Bool-cases (port == p)) [
      | inl q ↦
          rw (q, e)
            (ih (put same_number p c t)
              ∙ ap (λ (x : Option Node). or_get x (get same_number port (put same_number p c t)))
                  (none_at q)
              ∙ get-put same_number same_number-DecidesEq port p c t
              ∙ ground arith)
      | inr q ↦ rw q (
          ih (put same_number p c t)
          ∙ ap (or_get (device_on m (path_to port ps)))
              (get-put same_number same_number-DecidesEq port p c t ∙ ground arith))
    ]

abbrev RepeatsNoPort : Outcome UsbError HubType → Type 0
RepeatsNoPort (err e) = Unit
RepeatsNoPort (ok hub_type) = no_repeat (paths hub_type.port_mapping) ≡ true

get_hub_type-RepeatsNoPort : (type_name : Text) → RepeatsNoPort (get_hub_type type_name)
unfolding get_hub_type
get_hub_type-RepeatsNoPort type_name =
    elim (Bool-cases (text_eq type_name (codes "plugable_7port"))) [
      | inl e ↦ rw e refl
      | inr e ↦ rw e (elim (Bool-cases (text_eq type_name (codes "plugable_7port_usb3_part2"))) [
        | inl e ↦ rw e refl
        | inr e ↦ rw e (elim (Bool-cases (text_eq type_name (codes "plugable_7port_usb3_part3"))) [
          | inl e ↦ rw e refl
          | inr e ↦ rw e (elim (Bool-cases (text_eq type_name (codes "keedox"))) [
            | inl e ↦ rw e refl
            | inr e ↦ rw e (elim (Bool-cases (text_eq type_name (codes "via"))) [
              | inl e ↦ rw e refl
              | inr e ↦ rw e (tt)
            ])
          ])
        ])
      ])
    ]

entries_of-all : (tuples : List (ℕ × Node)) → entries_of (λ n. ok (some n)) tuples ≡ ok tuples
entries_of-all [] = refl
entries_of-all ((port, n) ∷ tuples) = rw (entries_of-all tuples) refl

or_get-none : (m : Option Node) → or_get m none ≡ m
or_get-none none = refl
or_get-none (some n) = refl

-- For a type of hub that GetHubType knows: when GetPhysicalPortToNodeMap returns its dict for a hub,
-- then the dict has at each physical port the device that is met on the way through the virtual
-- ports that the type's layout gives for the port, or nothing where no device is on that way.
pub port_map-follows :
    (type_name : Text) (hub_type : HubType) (hub : Node) (ports : Table ℕ Node) (port : ℕ)
    → get_hub_type type_name ≡ ok hub_type
    → get_physical_port_to_node_map hub hub_type ≡ ok ports
    → get same_number port ports ≡ device_on (some hub) (path_to port (paths hub_type.port_mapping))
unfolding get_physical_port_to_node_map get_physical_port_to_node_tuples
port_map-follows type_name hub_type hub ports port k h = subst Follows h (go (is_type hub_type hub))
  where
    Follows : Outcome UsbError (Table ℕ Node) → Type 0
    Follows r = elim r [
      | err e ↦ Unit
      | ok t ↦
          get same_number port t ≡ device_on (some hub) (path_to port (paths hub_type.port_mapping))
    ]

    go :
        (m : Outcome UsbError Bool)
        → Follows (
            mapped
              (dict_of [])
              (and_then (tuples_if hub_type hub m) (entries_of (λ n. ok (some n)))))
    go (err e) = tt
    go (ok false) = tt
    go (ok true) =
        rw
          (
            entries_of-all (gpp_helper hub hub_type.port_mapping),
            gpp_helper-along hub hub_type.port_mapping,
          )
          (get-dict_of (some hub) (paths hub_type.port_mapping) [] port
              (subst RepeatsNoPort k (get_hub_type-RepeatsNoPort type_name))
            ∙ or_get-none (device_on (some hub) (path_to port (paths hub_type.port_mapping))))
