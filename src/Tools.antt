-- ===== src/Tools.antt =====
-- software/tools: the hexadecimal filters and the bit reversal, over lists of characters.
pub mod Hex
pub mod Flipbits
pub mod Dice
pub mod EntCheck
pub mod FindLongest
mod Tests
