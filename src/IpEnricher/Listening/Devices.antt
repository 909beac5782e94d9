-- ===== src/IpEnricher/Listening/Devices.antt =====
-- ip_enricher_linux.go: the line that `ShowDevices` prints.
use dhound_agent.Base.{List, [], ◌∷◌, ◌++◌, ◌≡◌, refl, Option, none, some, Bytes, codes, map}

-- A device, with its addresses as texts.
pub record Device : Type 0 where
  pub name : Bytes
  pub addresses : List Bytes

-- `strings.Join`.
pub join : Bytes → List Bytes → Bytes
join separator [] = []
join separator (text ∷ []) = text
join separator (text ∷ other ∷ rest) = text ++ separator ++ join separator (other ∷ rest)

pub device_line : Device → Bytes
unfolding join
device_line device =
    codes "'" ++ device.name ++ codes "' (" ++ join (codes ",") device.addresses ++ codes ")"

found_line : List Device → Bytes
unfolding device_line join
found_line devices =
    codes "Found network interfaces: " ++ join (codes "; ") (map device_line devices) ++ codes "\n"

-- The texts printed. After an error the devices that came with it are shown all the same, and
-- `Printf` says that the format has no place for the error.
pub show_devices : Option Bytes → List Device → List Bytes
unfolding found_line
show_devices none devices = found_line devices ∷ []
show_devices (some error) devices =
    (codes "Failed find network devices\n%!(EXTRA string=" ++ error ++ codes ")")
    ∷ found_line devices
    ∷ []

two_devices :
    show_devices none (
      record { name = codes "eth0"; addresses = codes "10.0.0.1" ∷ codes "::1" ∷ [] }
      ∷ record { name = codes "lo"; addresses = [] }
      ∷ [])
    ≡ codes "Found network interfaces: 'eth0' (10.0.0.1,::1); 'lo' ()\n" ∷ []
unfolding show_devices
two_devices = refl
