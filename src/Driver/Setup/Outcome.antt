-- ===== src/Driver/Setup/Outcome.antt =====
-- The set-up of the drivers: when it succeeds, and what it makes of the interface.
use danp.Prelude.{
  ℕ, zero, suc, ◌≤◌, ◌<◌, ◌≡◌, refl, ap, ◌∙◌, ◌⊎◌, inl, inr, Bool, true, false, List, [], ◌∷◌,
  Option, none, some, arith, ℤ, pos, negsuc, length, get_or, set, get_or-set_self, length-set,
  Option-cases,
}
use danp.Types.{Packet, max_packet_size}
use danp.Osal.{Osal}
use danp.Route.{
  Interface, blank_interface, Routing, interface_at, find_interface_by_name, register_interface,
}
use danp.Route.Transmit.{find_interface_by_name-register}
use danp.Driver.Setup.{
  LoContext, filled_interface, put_interface, loopback_name, radio_init, zmq_init, lo_init,
}

-- No interface has an MTU over 128.
abbrev pub AllShort : Routing → Type 0
AllShort r = (k : ℕ) → (interface_at r k).mtu ≤ max_packet_size

set-short :
    (fs : List Interface) (i : ℕ) (f : Interface)
    → f.mtu ≤ max_packet_size
    → ((k : ℕ) → (get_or fs k blank_interface).mtu ≤ max_packet_size)
    → (k : ℕ) → (get_or (set fs i f) k blank_interface).mtu ≤ max_packet_size
set-short [] i f h a k = a k
set-short (x ∷ fs) zero f h a zero = h
set-short (x ∷ fs) zero f h a (suc k) = a (suc k)
set-short (x ∷ fs) (suc i) f h a zero = a 0
set-short (x ∷ fs) (suc i) f h a (suc k) = set-short fs i f h (λ j. a (suc j)) k

radio_init-AllShort :
    (iface : Option ℕ) (device memory : Bool) (name : Option (List ℕ)) (address : ℕ)
    → (configured listening : ℤ) (thread_made : Bool) (tx : Packet → ℤ) (r : Routing) → AllShort r
    → AllShort (radio_init iface device memory name address configured listening thread_made tx r).1
unfolding radio_init
radio_init-AllShort none d m name a c l t tx r h = h
radio_init-AllShort (some i) false m name a c l t tx r h = h
radio_init-AllShort (some i) true false name a c l t tx r h =
    set-short r.interfaces i blank_interface (omega arith) h
radio_init-AllShort (some i) true true name a (negsuc e) l t tx r h =
    set-short r.interfaces i _ (omega arith) h
radio_init-AllShort (some i) true true name a (pos c) (negsuc e) t tx r h =
    set-short r.interfaces i _ (omega arith) h
radio_init-AllShort (some i) true true name a (pos c) (pos l) true tx r h =
    set-short r.interfaces i _ (omega arith) h
radio_init-AllShort (some i) true true name a (pos c) (pos l) false tx r h =
    set-short r.interfaces i _ (omega arith) h

zmq_init-AllShort :
    (context : Bool) (i node_id : ℕ) (tx : Packet → ℤ) (r : Routing)
    → AllShort r
    → AllShort (zmq_init context i node_id tx r)
unfolding zmq_init
zmq_init-AllShort false i node_id tx r h = h
zmq_init-AllShort true i node_id tx r h = set-short r.interfaces i _ (omega arith) h

-- All that the radio's set-up needs went well.
record RadioReady (iface : Option ℕ) (device memory : Bool) (configured listening : ℤ)
    (thread_made : Bool) : Type 0 where
  pub at : ℕ
  pub given : iface ≡ some at
  pub device_given : device ≡ true
  pub has_memory : memory ≡ true
  pub config : ℕ
  pub config_taken : configured ≡ pos config
  pub listens : ℕ
  pub is_listening : listening ≡ pos listens
  pub has_thread : thread_made ≡ true

-- danp_radio_init returns what the radio answered to the request to listen, which is not negative,
-- if every step went well; and a negative number if the interface or the device is missing, there is
-- no memory, the radio refuses its configuration or to listen, or the thread cannot be made.
radio_init_cases :
    (iface : Option ℕ) (device memory : Bool) (name : Option (List ℕ)) (address : ℕ)
    → (configured listening : ℤ) (thread_made : Bool) (tx : Packet → ℤ) (r : Routing)
    → let ret =
        (radio_init iface device memory name address configured listening thread_made tx r).0 in
      ((v : RadioReady iface device memory configured listening thread_made) × (ret
          ≡ pos v.listens))
      ⊎ ((e : ℕ) × (ret ≡ negsuc e)
          × (RadioReady iface device memory configured listening thread_made → ⊥))
unfolding radio_init
radio_init_cases none d m name a c l t tx r = inr (0, refl, λ v. cc (v.given))
radio_init_cases (some i) false m name a c l t tx r = inr (0, refl, λ v. cc (v.device_given))
radio_init_cases (some i) true false name a c l t tx r = inr (0, refl, λ v. cc (v.has_memory))
radio_init_cases (some i) true true name a (negsuc e) l t tx r =
    inr (e, refl, λ v. cc (v.config_taken))
radio_init_cases (some i) true true name a (pos c) (negsuc e) t tx r =
    inr (e, refl, λ v. cc (v.is_listening))
radio_init_cases (some i) true true name a (pos c) (pos l) false tx r =
    inr (0, refl, λ v. cc (v.has_thread))
radio_init_cases (some i) true true name a (pos c) (pos l) true tx r = inl (
  record {
    at = i;
    given = refl;
    device_given = refl;
    has_memory = refl;
    config = c;
    config_taken = refl;
    listens = l;
    is_listening = refl;
    has_thread = refl;
  },
  refl,
)

module _ {o : Osal} where
  -- Whatever it returns, the set-up of a given interface leaves the same interface.
  lo_init-interface :
      (i address : ℕ) (thread_made : Bool) (tx : Packet → ℤ) (r : Routing) (ctx : LoContext o)
      → (lo_init (some i) address thread_made tx r ctx).1
        ≡ put_interface r i (filled_interface (some loopback_name) address tx)
  unfolding lo_init
  lo_init-interface i address thread_made tx r ctx =
      elim (Option-cases (o.mq_create {A = Packet} 2)) [
        | inl e ↦ rw (lo_init, e) refl
        | inr (q, e) ↦ ground (arith, e)
      ]

  -- None of the three drivers sets an MTU over 128, whether its set-up succeeds or not: if all
  -- interfaces had at most that, they have it afterwards.
  pub inits-AllShort :
      (i address : ℕ) (name : Option (List ℕ)) (device memory thread_made context : Bool)
      → (configured listening : ℤ) (tx : Packet → ℤ) (r : Routing) (ctx : LoContext o) → AllShort r
      → AllShort (lo_init (some i) address thread_made tx r ctx).1
        × AllShort
            (radio_init (some i) device memory name address configured listening thread_made tx r).1
        × AllShort (zmq_init context i address tx r)
  inits-AllShort i address name device memory thread_made context configured listening tx r ctx h =
      (
        rw (lo_init-interface i address thread_made tx r ctx)
            (unfold filled_interface in set-short r.interfaces i _ (omega arith) h),
        radio_init-AllShort (some i) device memory name address configured listening thread_made tx
            r h,
        zmq_init-AllShort context i address tx r h,
      )

  -- After danp_lo_init of an interface, danp_register_interface, with the lock, registers it, and
  -- the name "Loopback" leads to it.
  lo_init-registers :
      (i address : ℕ) (thread_made : Bool) (tx : Packet → ℤ) (r : Routing) (ctx : LoContext o)
      → i < length r.interfaces
      → find_interface_by_name
          (register_interface true (some i) (lo_init (some i) address thread_made tx r ctx).1)
          loopback_name
        ≡ some i
  lo_init-registers i address thread_made tx r ctx inside =
      let f = filled_interface (some loopback_name) address tx in
      let now : interface_at (put_interface r i f) i ≡ f =
        get_or-set_self r.interfaces i f blank_interface inside in
      let name_set : (interface_at (put_interface r i f) i).name ≡ some loopback_name =
        ap (λ (x : Interface). x.name) now ∙ (unfold filled_interface in refl) in
      let mtu_set : (interface_at (put_interface r i f) i).mtu ≡ max_packet_size =
        ap (λ (x : Interface). x.mtu) now ∙ (unfold filled_interface in refl) in
      let driver_set : (interface_at (put_interface r i f) i).tx_func ≡ some tx =
        ap (λ (x : Interface). x.tx_func) now ∙ (unfold filled_interface in refl) in
      rw (lo_init-interface i address thread_made tx r ctx) (
        find_interface_by_name-register (put_interface r i f) i loopback_name (record {
          in_range = omega (arith, length-set r.interfaces i f);
          named = name_set;
          mtu = λ e. omega (arith, e, mtu_set);
          driver = λ e. cc (e, driver_set);
        }))
