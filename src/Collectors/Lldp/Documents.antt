-- ===== src/Collectors/Lldp/Documents.antt =====
-- The documents that `lldpctl` prints for given neighbors, and that they are read back.
use rewsr_maxfields.Base.{◌≡◌, refl, ap, List, [], ◌∷◌, Str, str, str_eq}
use rewsr_maxfields.Collectors.Sections.{LldpNeighbor}
use rewsr_maxfields.Collectors.Lldp.{
  Value, text, array, object, Values, vnil, vcons, Members, mnil, mcons, member, object_elements,
  as_object_list, mgmt_ip, set_chassis, set_port, interface_neighbors, neighbors_of,
  document_neighbors,
}

abbrev one : Str → Value → Members
one key v = mcons key v mnil

abbrev chassis_of : LldpNeighbor → Value
chassis_of n = object (
    one n.chassis_name
      (object (mcons (str "descr") (text n.chassis_descr) (one (str "mgmt-ip") (text n.mgmt_ip)))))

abbrev port_of : LldpNeighbor → Value
port_of n = object (
    mcons (str "id")
      (object (mcons (str "type") (text (str "ifname")) (one (str "value") (text n.port_id))))
      (one (str "descr") (text n.port_descr)))

-- An interface with its neighbor.
abbrev interface_of : LldpNeighbor → Members
interface_of n =
    one n.local_port (object (mcons (str "chassis") (chassis_of n) (one (str "port") (port_of n))))

abbrev interfaces : List LldpNeighbor → Values
interfaces [] = vnil
interfaces (n ∷ ns) = vcons (object (interface_of n)) (interfaces ns)

abbrev wrapped : Value → Members
wrapped v = one (str "lldp") (object (one (str "interface") v))

-- An array of interfaces, and the bare interface that `lldpctl` prints in place of an array of one.
abbrev pub document : List LldpNeighbor → Members
document ns = wrapped (array (interfaces ns))

abbrev pub collapsed : LldpNeighbor → Members
collapsed n = wrapped (object (interface_of n))

interface_lem : (n : LldpNeighbor) → interface_neighbors (interface_of n) ≡ n ∷ []
unfolding interface_neighbors set_chassis set_port member mgmt_ip str str_eq
interface_lem n = refl

interfaces_lem : (ns : List LldpNeighbor) → neighbors_of (object_elements (interfaces ns)) ≡ ns
unfolding neighbors_of object_elements
interfaces_lem [] = refl
interfaces_lem (n ∷ ns) = rw interface_lem (ap (λ l. n ∷ l) (interfaces_lem ns))

-- The document of any neighbors, in which every interface is an object with a chassis and a port, is read
-- as these neighbors in their order; and where there is one neighbor, the document in which the array is
-- collapsed to its element is read in the same way.
pub document_neighbors-document :
    (ns : List LldpNeighbor)
    → (document_neighbors (document ns) ≡ ns)
      × ((n : LldpNeighbor) → document_neighbors (collapsed n) ≡ n ∷ [])
unfolding document_neighbors as_object_list member str str_eq neighbors_of
document_neighbors-document ns = (interfaces_lem ns, λ n. rw interface_lem refl)
