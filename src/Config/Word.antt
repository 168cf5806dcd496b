-- ===== src/Config/Word.antt =====
-- The words of boot.ini.
use osldr.Base.{[], ◌∷◌, Bytes}

abbrev pub timeout : Bytes
timeout = b'T' ∷ b'i' ∷ b'm' ∷ b'e' ∷ b'o' ∷ b'u' ∷ b't' ∷ []

abbrev pub address : Bytes
address = b'A' ∷ b'd' ∷ b'd' ∷ b'r' ∷ b'e' ∷ b's' ∷ b's' ∷ []

abbrev pub command : Bytes
command = b'C' ∷ b'o' ∷ b'm' ∷ b'm' ∷ b'a' ∷ b'n' ∷ b'd' ∷ []

abbrev pub drive : Bytes
drive = b'D' ∷ b'r' ∷ b'i' ∷ b'v' ∷ b'e' ∷ []

abbrev pub module_word : Bytes
module_word = b'M' ∷ b'o' ∷ b'd' ∷ b'u' ∷ b'l' ∷ b'e' ∷ []

abbrev pub type : Bytes
type = b'T' ∷ b'y' ∷ b'p' ∷ b'e' ∷ []

abbrev pub default : Bytes
default = b'D' ∷ b'e' ∷ b'f' ∷ b'a' ∷ b'u' ∷ b'l' ∷ b't' ∷ []

abbrev pub binary : Bytes
binary = b'B' ∷ b'i' ∷ b'n' ∷ b'a' ∷ b'r' ∷ b'y' ∷ []

abbrev pub multiboot : Bytes
multiboot = b'M' ∷ b'u' ∷ b'l' ∷ b't' ∷ b'i' ∷ b'b' ∷ b'o' ∷ b'o' ∷ b't' ∷ []

abbrev pub bootsector : Bytes
bootsector = b'B' ∷ b'o' ∷ b'o' ∷ b't' ∷ b's' ∷ b'e' ∷ b'c' ∷ b't' ∷ b'o' ∷ b'r' ∷ []

abbrev pub relocatable : Bytes
relocatable = b'R' ∷ b'e' ∷ b'l' ∷ b'o' ∷ b'c' ∷ b'a' ∷ b't' ∷ b'a' ∷ b'b' ∷ b'l' ∷ b'e' ∷ []

abbrev pub yes : Bytes
yes = b'Y' ∷ b'e' ∷ b's' ∷ []
