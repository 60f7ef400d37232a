-- ===== src/Userspace/Library/Devices.antt =====
-- `inf_get_devstrings` and `listUSBDevices` of software/libinfnoise.c. The world counts the nodes
-- that are allocated and not yet freed; an allocation succeeds.
use infnoise.Base.{
  ◌≤◌, Bool-cases, ◌⊎◌, inl, inr, ap, ℕ, suc, ◌+◌, ◌-◌, ◌≡◌, refl, List, [], ◌∷◌, ◌++◌, Option,
  none, some, length, if◌then◌else◌, arith,
}
use infnoise.Userspace.Steps.{Code, is_negative}
use infnoise.Userspace.Context.{Message, Node, Libftdi}

-- The world, the nodes on the heap and the message.
pub record Heap (W : Type 0) : Type 0 where
  pub world : W
  pub nodes : ℕ
  pub message : Message

-- The list from `bgn` to `end`; NULL is the empty list.
module _ {W : Type 0} (ftdi : Libftdi W) where
  -- `free(cur)`
  unfoldable pub free_node : Heap W → Heap W
  free_node s = record s { nodes = s.nodes - 1 }

  -- `malloc` of a node, and the call that fills it.
  unfoldable pub read_node : ℕ → Heap W → Option Node × Heap W
  read_node dev s =
      let (node, w) = ftdi.get_strings dev s.world in
      (node, record s { world = w; nodes = s.nodes + 1 })

  unfoldable pub get_devstrings : List ℕ → List Node → Heap W → List Node × Heap W
  get_devstrings [] list s = (list, s)
  get_devstrings (dev ∷ devs) list s =
      let (node, s1) = read_node dev s in
      elim node [
        | none ↦ ([], free_node (record s1 { message = Message.from_ftdi }))
        | some cur ↦
            let (ret, s2) = get_devstrings devs (list ++ (cur ∷ [])) s1 in
            elim ret [ [] ↦ ([], free_node s2) | node' ∷ rest ↦ (node' ∷ rest, s2) ]
      ]

  -- The message where no device is found.
  unfoldable pub report_none : Heap W → List Node × Heap W
  report_none s =
      let (is_super, w) = ftdi.is_super_user s.world in
      (
        [],
        record s {
          world = w;
          message = if is_super then Message.not_found else Message.not_found_try_super_user;
        },
      )

  -- The devices that were found; NULL is the empty list.
  unfoldable pub list_found : Code → List ℕ → Heap W → List Node × Heap W
  list_found found devs s = if is_negative found then report_none s else elim devs [
    | [] ↦ report_none s
    | dev ∷ rest ↦
        let (list, s1) = get_devstrings (dev ∷ rest) [] s in
        (list, record s1 { world = ftdi.list_free s1.world })
  ]

  -- `listUSBDevices`
  unfoldable pub list_usb_devices : Heap W → List Node × Heap W
  list_usb_devices s =
      let (rc, w) = ftdi.init s.world in
      let (answer, w1) = ftdi.find_all w in
      let (list, s1) = list_found answer.0 answer.1 (record s { world = w1 }) in
      if is_negative rc
      then ([], record s { world = w; message = Message.no_init })
      else (list, record s1 { world = ftdi.deinit s1.world })

-- What a walk over the devices leaves on the heap beside the nodes of `list`.
Balanced : {W : Type 0} → List Node → Heap W → List Node × Heap W → Type 0
Balanced list s (ret, s') =
    ((ret ≡ []) × (s'.nodes ≡ s.nodes))
    ⊎ ((s'.nodes + length list ≡ s.nodes + length ret) × (length list ≤ length ret))

length-snoc : (list : List Node) (node : Node) → length (list ++ (node ∷ [])) ≡ suc (length list)
length-snoc [] node = refl
length-snoc (x ∷ list) node = ap suc (length-snoc list node)

module _ {W : Type 0} (ftdi : Libftdi W) where
  -- The case of a node whose strings are read.
  walked :
      (list : List Node) (cur : Node) (s s1 : Heap W) (r : List Node × Heap W)
      → s1.nodes ≡ s.nodes + 1
      → Balanced (list ++ (cur ∷ [])) s1 r
      → Balanced list s
          (elim r.0 [ [] ↦ ([], free_node ftdi r.1) | node' ∷ rest ↦ (node' ∷ rest, r.1) ])
  unfolding Balanced free_node
  walked list cur s s1 ([], s2) e (inl b) = inl (refl, omega (arith, b.1))
  walked list cur s s1 ([], s2) e (inr b) = absurd (omega (arith, length-snoc list cur, b.1))
  walked list cur s s1 (node ∷ rest, s2) e (inl (empty, same)) = absurd (cc)
  walked list cur s s1 (node ∷ rest, s2) e (inr b) =
      inr (omega (arith, length-snoc list cur, b.0), omega (arith, length-snoc list cur, b.1))

  get_devstrings-Balanced :
      (devs : List ℕ) (list : List Node) (s : Heap W)
      → Balanced list s (get_devstrings ftdi devs list s)
  unfolding Balanced get_devstrings read_node free_node
  get_devstrings-Balanced [] list s = inr (omega arith, omega arith)
  get_devstrings-Balanced (dev ∷ devs) list s =
      let s1 = record s { world = (ftdi.get_strings dev s.world).1; nodes = s.nodes + 1 } in
      elim (ftdi.get_strings dev s.world).0
        as (λ node. Balanced list s (elim node [
          | none ↦ ([], free_node ftdi (record s1 { message = Message.from_ftdi }))
          | some cur ↦
              let (ret, s2) = get_devstrings ftdi devs (list ++ (cur ∷ [])) s1 in
              elim ret [ [] ↦ ([], free_node ftdi s2) | node' ∷ rest ↦ (node' ∷ rest, s2) ]
        ])) [
          | none ↦ inl (refl, omega arith)
          | some cur ↦
              walked list cur s s1 (get_devstrings ftdi devs (list ++ (cur ∷ [])) s1) refl
                (get_devstrings-Balanced devs (list ++ (cur ∷ [])) s1)
        ]

  Balanced-nodes :
      (s : Heap W) (r : List Node × Heap W) → Balanced [] s r → r.1.nodes ≡ s.nodes + length r.0
  unfolding Balanced
  Balanced-nodes s r (inl b) = rw b.0 (omega (arith, b.1))
  Balanced-nodes s r (inr b) = omega (arith, b.0)

  list_found-nodes :
      (found : Code) (devs : List ℕ) (s : Heap W)
      → (list_found ftdi found devs s).1.nodes ≡ s.nodes + length (list_found ftdi found devs s).0
  unfolding list_found report_none
  list_found-nodes (Code.failed n) devs s = omega arith
  list_found-nodes (Code.given n) [] s = omega arith
  list_found-nodes (Code.given n) (dev ∷ rest) s =
      Balanced-nodes s (get_devstrings ftdi (dev ∷ rest) [] s)
        (get_devstrings-Balanced (dev ∷ rest) [] s)

  -- Every node that the walk over the devices allocates is in the list that it returns or has been
  -- freed, whatever the calls of libftdi answer.
  pub list_usb_devices-nodes :
      (s : Heap W)
      → (list_usb_devices ftdi s).1.nodes ≡ s.nodes + length (list_usb_devices ftdi s).0
  unfolding list_usb_devices
  list_usb_devices-nodes s =
      let (answer, w) = ftdi.find_all (ftdi.init s.world).1 in
      elim (Bool-cases (is_negative (ftdi.init s.world).0)) [
        | inl e ↦ rw e (omega arith)
        | inr e ↦ rw e (list_found-nodes answer.0 answer.1 (record s { world = w }))
      ]
