-- ===== src/Push/Synced.antt =====
-- Pushing and deleting what _GetChangedAndStaleFiles tells makes the device's files those of the host.
use udroid.Prelude.{
  Bool, true, false, not, ◌&&◌, Option, none, some, List, [], ◌∷◌, Text, if◌then◌else◌, lookup,
  contains, is_some, text_eq, text_eq-eq, ◌≡◌, refl, sym, ap, ◌∙◌, arith, inl, inr, Bool-cases,
}
use udroid.Push.Comparing.{
  Sums, Pair, Changes, same_sum, without, keys, with_file, directory_changes,
}

abbrev pub overlaid : Option Text → Bool → Option Text → Option Text
overlaid (some new) deleted old = some new
overlaid none deleted old = if deleted then none else old

-- What stands on the device at a path after the pushes, where a host path's checksum is `sum_of` it.
abbrev pub pushed : (Text → Text) → List Pair → Text → Option Text
pushed sum_of [] p = none
pushed sum_of ((h, d) ∷ pairs) p = if text_eq p d then some (sum_of h) else pushed sum_of pairs p

-- The device's checksum at a path when the stale files are deleted and the changed ones are pushed.
abbrev pub synced : (Text → Text) → Changes → Sums → Text → Option Text
synced sum_of c device p =
    overlaid (pushed sum_of c.to_push p) (contains p c.to_delete) (lookup p device)

abbrev pub sums_of : (Text → Text) → List Text → Sums
sums_of sum_of [] = []
sums_of sum_of (h ∷ hosts) = (h, sum_of h) ∷ sums_of sum_of hosts

-- What the host has for a path of the device.
abbrev pub on_host : (Text → Text) → (Text → Text) → List Text → Text → Option Text
on_host target sum_of [] p = none
on_host target sum_of (h ∷ hosts) p =
    if text_eq p (target h) then some (sum_of h) else on_host target sum_of hosts p

-- No two of the files go to the same path.
abbrev pub no_clash : (Text → Text) → (Text → Text) → List Text → Bool
no_clash target sum_of [] = true
no_clash target sum_of (h ∷ hosts) =
    not (is_some (on_host target sum_of hosts (target h))) && no_clash target sum_of hosts

abbrev differing : Option Text → Option Text → Option Text
differing device none = none
differing device (some sum) = if same_sum device (some sum) then none else some sum

contains-keys : (p : Text) (device : Sums) → contains p (keys device) ≡ is_some (lookup p device)
contains-keys p [] = refl
contains-keys p ((path, sum) ∷ device) = elim (Bool-cases (text_eq p path)) [
  | inl e ↦ rw e refl
  | inr e ↦ rw e (contains-keys p device)
]

text_differs : (p j k : Text) → text_eq p j ≡ true → text_eq k j ≡ false → text_eq p k ≡ false
text_differs p j k r e = elim (Bool-cases (text_eq p k)) [
  | inl q ↦ ground (arith, r, e, ap (λ (t : Text). text_eq t j) (text_eq-eq p k q))
  | inr q ↦ q
]

lookup-without :
    (p k : Text) (device : Sums)
    → lookup p (without k device) ≡ (if text_eq p k then none else lookup p device)
lookup-without p k [] = ground arith
lookup-without p k ((j, sum) ∷ device) = elim (Bool-cases (text_eq k j)) [
  | inl e ↦ rw e (lookup-without p k device ∙ same_key e)
  | inr e ↦ rw e (elim (Bool-cases (text_eq p j)) [
    | inl r ↦ rw (r, text_differs p j k r e) refl
    | inr r ↦ rw r (lookup-without p k device)
  ])
]
  where
    same_key :
        text_eq k j ≡ true
        → (if text_eq p k then none else lookup p device)
          ≡ (if text_eq p k then none else if text_eq p j then some sum else lookup p device)
    same_key e = elim (Bool-cases (text_eq p k)) [
      | inl q ↦ rw q refl
      | inr q ↦ rw (q, ap (text_eq p) (sym (text_eq-eq k j e)) ∙ q) refl
    ]

absent : (m : Option Text) → is_some m ≡ false → m ≡ none
absent none h = refl
absent (some a) h = cc

differing-none : (device : Option Text) → differing device none ≡ none
differing-none device = refl

-- A host file more: what is pushed at the path that it goes to, and at any other.
pushed-with_file :
    (sum_of : Text → Text) (b : Bool) (x d : Text) (c : Changes) (p : Text)
    → pushed sum_of (with_file b x d c).to_push p
      ≡ (if text_eq p d && not b then some (sum_of x) else pushed sum_of c.to_push p)
pushed-with_file sum_of true x d c p = ground arith
pushed-with_file sum_of false x d c p = ground arith

to_delete-with_file :
    (b : Bool) (x d : Text) (c : Changes) → (with_file b x d c).to_delete ≡ c.to_delete
to_delete-with_file true x d c = refl
to_delete-with_file false x d c = refl

pushed-directory_changes :
    (target sum_of : Text → Text) (hosts : List Text) (device : Sums) (p : Text)
    → no_clash target sum_of hosts ≡ true
    → pushed sum_of (directory_changes target (sums_of sum_of hosts) device).to_push p
      ≡ differing (lookup p device) (on_host target sum_of hosts p)
unfolding directory_changes
pushed-directory_changes target sum_of [] device p h = refl
pushed-directory_changes target sum_of (x ∷ hosts) device p h =
    pushed-with_file sum_of (is_there device) x (target x)
      (directory_changes target (sums_of sum_of hosts) (without (target x) device)) p
    ∙ go (pushed-directory_changes target sum_of hosts (without (target x) device) p (ground arith))
  where
    is_there : Sums → Bool
    is_there sums = same_sum (lookup (target x) sums) (some (sum_of x))

    rest : Option Text
    rest =
        pushed sum_of
          (directory_changes target (sums_of sum_of hosts) (without (target x) device)).to_push p

    here : text_eq p (target x) ≡ true → lookup p device ≡ lookup (target x) device
    here q = ap (λ (t : Text). lookup t device) (text_eq-eq p (target x) q)

    alone : text_eq p (target x) ≡ true → on_host target sum_of hosts p ≡ none
    alone q =
        ap (on_host target sum_of hosts) (text_eq-eq p (target x) q)
        ∙ absent (on_host target sum_of hosts (target x)) (ground arith)

    go :
        rest ≡ differing (lookup p (without (target x) device)) (on_host target sum_of hosts p)
        → (if text_eq p (target x) && not (is_there device) then some (sum_of x) else rest)
          ≡ differing
              (lookup p device)
              (if text_eq p (target x) then some (sum_of x) else on_host target sum_of hosts p)
    go ih = elim (Bool-cases (text_eq p (target x))) [
      | inl q ↦
          rw (q, here q)
            (elim (Bool-cases (is_there device)) [
              | inl e ↦ rw e (ih ∙ ap (differing (lookup p (without (target x) device))) (alone q))
              | inr e ↦ rw e refl
            ])
      | inr q ↦ rw q (
          ih
          ∙ ap (λ (m : Option Text). differing m (on_host target sum_of hosts p))
              (lookup-without p (target x) device ∙ rw q refl))
    ]

deleted-directory_changes :
    (target sum_of : Text → Text) (hosts : List Text) (device : Sums) (p : Text)
    → contains p (directory_changes target (sums_of sum_of hosts) device).to_delete
      ≡ (is_some (lookup p device) && not (is_some (on_host target sum_of hosts p)))
unfolding directory_changes
deleted-directory_changes target sum_of [] device p = contains-keys p device ∙ ground arith
deleted-directory_changes target sum_of (x ∷ hosts) device p =
    ap (contains p) (
      to_delete-with_file _ x (target x)
        (directory_changes target (sums_of sum_of hosts) (without (target x) device)))
    ∙ deleted-directory_changes target sum_of hosts (without (target x) device) p
    ∙ ap (λ (m : Option Text). is_some m && not (is_some (on_host target sum_of hosts p)))
        (lookup-without p (target x) device)
    ∙ (elim (Bool-cases (text_eq p (target x))) [ inl q ↦ rw q (ground arith) | inr q ↦ rw q refl ])

settled :
    (device host : Option Text) (deleted : Bool)
    → deleted ≡ (is_some device && not (is_some host))
    → overlaid (differing device host) deleted device ≡ host
settled none none deleted h = rw h refl
settled none (some sum) deleted h = refl
settled (some old) none deleted h = rw h refl
settled (some old) (some sum) deleted h = elim (Bool-cases (text_eq old sum)) [
  | inl e ↦ rw (e, h, text_eq-eq old sum e) refl
  | inr e ↦ rw e refl
]

-- Where no two files of the host's directory go to the same path of the device: when the changed files
-- that _GetChangedAndStaleFiles tells of are pushed and the stale ones deleted, the device has at each
-- path the checksum of the host's file that goes there, and nothing at a path where none goes.
pub directory_is_synced :
    (target sum_of : Text → Text) (hosts : List Text) (device : Sums) (p : Text)
    → no_clash target sum_of hosts ≡ true
    → synced sum_of (directory_changes target (sums_of sum_of hosts) device) device p
      ≡ on_host target sum_of hosts p
directory_is_synced target sum_of hosts device p h =
    ap (λ (m : Option Text). overlaid m (contains p c.to_delete) (lookup p device))
      (pushed-directory_changes target sum_of hosts device p h)
    ∙ settled (lookup p device) (on_host target sum_of hosts p) (contains p c.to_delete)
        (deleted-directory_changes target sum_of hosts device p)
  where
    c : Changes
    c = directory_changes target (sums_of sum_of hosts) device
