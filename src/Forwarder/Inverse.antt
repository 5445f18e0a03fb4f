-- ===== src/Forwarder/Inverse.antt =====
-- The two port maps of the Forwarder are inverse to one another.
use udroid.Prelude.{
  true, false, ◌&&◌, Option, none, some, [], ◌∷◌, Text, text_eq, text_eq-eq, text_eq_refl,
  if◌then◌else◌, arith, ◌≡◌, refl, ap, ◌∙◌, is_some, inl, inr, Bool-cases, ℤ, same_int, same_int-eq,
  same_int_refl, DecidesEq, Table, get, get-remove, Undoes, Undoes-put, Undoes-remove, Distinct,
  Distinct-put, Distinct-remove, Listed, Listed-remove,
}
use udroid.Prelude.Effects.{Outcome, ok}
use udroid.Forwarder.{
  Failure, SerialWithPort, same_port, Forwarder, new_forwarder, record_ports, forget_port,
  delete_port, delete_device,
}

pub int_eq : DecidesEq same_int
int_eq = record { same-eq = same_int-eq; same_refl = same_int_refl }

same_port-eq : (a b : SerialWithPort) → same_port a b ≡ true → a ≡ b
same_port-eq (s, d) (s', d') h =
    ap (λ (t : Text). (t, d)) (text_eq-eq s s' (ground arith))
    ∙ ap (λ (i : ℤ). (s', i)) (same_int-eq d d' (ground arith))

same_port_refl : (a : SerialWithPort) → same_port a a ≡ true
same_port_refl (s, d) = ground (arith, text_eq_refl s, same_int_refl d)

pub port_eq : DecidesEq same_port
port_eq = record { same-eq = same_port-eq; same_refl = same_port_refl }

abbrev pub host_of : SerialWithPort → Forwarder → Option ℤ
host_of p f = get same_port p f.device_to_host_port_map

abbrev pub device_of : ℤ → Forwarder → Option SerialWithPort
device_of h f = get same_int h f.host_to_device_port_map

-- Each map undoes the other, and no device port is listed twice.
pub record IsInverse (f : Forwarder) : Type 0 where
  pub to_host : Undoes int_eq port_eq f.device_to_host_port_map f.host_to_device_port_map
  pub to_device : Undoes port_eq int_eq f.host_to_device_port_map f.device_to_host_port_map
  pub distinct : Distinct same_port f.device_to_host_port_map

pub new_forwarder-IsInverse : IsInverse new_forwarder
new_forwarder-IsInverse = record { to_host = λ p h e. cc; to_device = λ p h e. cc; distinct = tt }

-- Recording two ports of which neither is in use.
pub record_ports-IsInverse :
    (serial : Text) (d h : ℤ) (f : Forwarder)
    → IsInverse f
    → host_of (serial, d) f ≡ none
    → device_of h f ≡ none
    → IsInverse (record_ports serial d h f)
unfolding record_ports
record_ports-IsInverse serial d h f inv free_port free_host = record {
  to_host =
      Undoes-put int_eq port_eq h (serial, d) f.device_to_host_port_map f.host_to_device_port_map
        inv.to_host free_host;
  to_device =
      Undoes-put port_eq int_eq (serial, d) h f.host_to_device_port_map f.device_to_host_port_map
        inv.to_device free_port;
  distinct = Distinct-put same_port port_eq (serial, d) h f.device_to_host_port_map inv.distinct;
}

forget_port-IsInverse :
    (p : SerialWithPort) (h : ℤ) (f : Forwarder)
    → IsInverse f
    → host_of p f ≡ some h
    → IsInverse (forget_port p h f)
forget_port-IsInverse p h f inv e = record {
  to_host =
      Undoes-remove int_eq port_eq h p f.device_to_host_port_map f.host_to_device_port_map
        inv.to_host (inv.to_host h p e);
  to_device =
      Undoes-remove port_eq int_eq p h f.host_to_device_port_map f.device_to_host_port_map
        inv.to_device e;
  distinct = Distinct-remove same_port port_eq p f.device_to_host_port_map inv.distinct;
}

-- Deleting a port that is forwarded raises nothing.
pub delete_port_lem :
    (p : SerialWithPort) (h : ℤ) (f : Forwarder)
    → IsInverse f
    → host_of p f ≡ some h
    → (delete_port p h f ≡ (ok tt, forget_port p h f)) × IsInverse (forget_port p h f)
unfolding delete_port
delete_port_lem p h f inv e =
    (rw (e, inv.to_host h p e, delete_port) refl, forget_port-IsInverse p h f inv e)

-- What is forwarded once the ports of a device among `items` are deleted.
abbrev pub left_of : Text → Table SerialWithPort ℤ → Forwarder → SerialWithPort → Option ℤ
left_of serial items f q =
    if text_eq q.0 serial && is_some (get same_port q items) then none else host_of q f

left_of-cons :
    (serial : Text) (p : SerialWithPort) (h : ℤ) (items : Table SerialWithPort ℤ) (f : Forwarder)
    (q : SerialWithPort)
    → text_eq p.0 serial ≡ true
    → left_of serial items (forget_port p h f) q ≡ left_of serial ((p, h) ∷ items) f q
left_of-cons serial p h items f q here = elim (Bool-cases (same_port q p)) [
  | inl e ↦ ground (
    arith,
    get-remove same_port port_eq q p f.device_to_host_port_map,
    ap (λ (x : SerialWithPort). text_eq x.0 serial) (same_port-eq q p e),
  )
  | inr e ↦ ground (arith, get-remove same_port port_eq q p f.device_to_host_port_map)
]

left_of-other :
    (serial : Text) (p : SerialWithPort) (h : ℤ) (items : Table SerialWithPort ℤ) (f : Forwarder)
    (q : SerialWithPort)
    → text_eq p.0 serial ≡ false
    → left_of serial items f q ≡ left_of serial ((p, h) ∷ items) f q
left_of-other serial p h items f q other = elim (Bool-cases (same_port q p)) [
  | inl e ↦ ground (arith, ap (λ (x : SerialWithPort). text_eq x.0 serial) (same_port-eq q p e))
  | inr e ↦ ground arith
]

-- The loop of UnmapAllDevicePorts over items that the maps hold.
abbrev pub Deleted :
    Text → Table SerialWithPort ℤ → Forwarder → Outcome Failure (Unit {0}) × Forwarder → Type 0
Deleted serial items f (r, f') =
    (r ≡ ok tt) × IsInverse f' × ((q : SerialWithPort) → host_of q f' ≡ left_of serial items f q)

pub delete_device_lem :
    (serial : Text) (items : Table SerialWithPort ℤ) (f : Forwarder)
    → IsInverse f
    → Listed same_port items f.device_to_host_port_map
    → Deleted serial items f (delete_device serial items f)
unfolding delete_device
delete_device_lem serial [] f inv l = (refl, inv, λ q. ground arith)
delete_device_lem serial ((p, h) ∷ items) f inv l = elim (Bool-cases (text_eq p.0 serial)) [
  | inl e ↦
      let (done, inv') = delete_port_lem p h f inv l.0 in
      let (r, inv'', rest) =
        delete_device_lem serial items (forget_port p h f) inv'
          (Listed-remove same_port port_eq p items f.device_to_host_port_map l.1 l.2) in
      rw (e, done) (r, inv'', λ q. rest q ∙ left_of-cons serial p h items f q e)
  | inr e ↦
      let (r, inv', rest) = delete_device_lem serial items f inv l.2 in
      rw e (r, inv', λ q. rest q ∙ left_of-other serial p h items f q e)
]
