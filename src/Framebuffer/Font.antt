-- ===== src/Framebuffer/Font.antt =====
-- The font of src/drivers/framebuffer.c: eight bytes for each character from the space on, one for
-- each row, with the leftmost pixel in the highest bit.
use neodymium.Base.{ℕ, List, [], ◌∷◌}

pub fb_font : List (List ℕ)
fb_font =
    (0x00 ∷ 0x00 ∷ 0x00 ∷ 0x00 ∷ 0x00 ∷ 0x00 ∷ 0x00 ∷ 0x00 ∷ [])
    ∷ (0x18 ∷ 0x18 ∷ 0x18 ∷ 0x18 ∷ 0x18 ∷ 0x00 ∷ 0x18 ∷ 0x00 ∷ [])
    ∷ (0x6C ∷ 0x6C ∷ 0x6C ∷ 0x00 ∷ 0x00 ∷ 0x00 ∷ 0x00 ∷ 0x00 ∷ [])
    ∷ (0x14 ∷ 0x14 ∷ 0x7E ∷ 0x28 ∷ 0xFC ∷ 0x50 ∷ 0x50 ∷ 0x00 ∷ [])
    ∷ (0x08 ∷ 0x3E ∷ 0x48 ∷ 0x3C ∷ 0x0A ∷ 0x7C ∷ 0x08 ∷ 0x00 ∷ [])
    ∷ (0x64 ∷ 0x94 ∷ 0x68 ∷ 0x10 ∷ 0x2E ∷ 0x52 ∷ 0x4C ∷ 0x00 ∷ [])
    ∷ (0x38 ∷ 0x44 ∷ 0x48 ∷ 0x30 ∷ 0x4A ∷ 0x44 ∷ 0x3A ∷ 0x00 ∷ [])
    ∷ (0x18 ∷ 0x18 ∷ 0x30 ∷ 0x00 ∷ 0x00 ∷ 0x00 ∷ 0x00 ∷ 0x00 ∷ [])
    ∷ (0x06 ∷ 0x0C ∷ 0x18 ∷ 0x18 ∷ 0x18 ∷ 0x0C ∷ 0x06 ∷ 0x00 ∷ [])
    ∷ (0x60 ∷ 0x30 ∷ 0x18 ∷ 0x18 ∷ 0x18 ∷ 0x30 ∷ 0x60 ∷ 0x00 ∷ [])
    ∷ (0x08 ∷ 0x6A ∷ 0x3E ∷ 0x1C ∷ 0x3E ∷ 0x6A ∷ 0x08 ∷ 0x00 ∷ [])
    ∷ (0x08 ∷ 0x08 ∷ 0x08 ∷ 0xFE ∷ 0x08 ∷ 0x08 ∷ 0x08 ∷ 0x00 ∷ [])
    ∷ (0x00 ∷ 0x00 ∷ 0x00 ∷ 0x00 ∷ 0x00 ∷ 0x18 ∷ 0x18 ∷ 0x30 ∷ [])
    ∷ (0x00 ∷ 0x00 ∷ 0x00 ∷ 0x7E ∷ 0x00 ∷ 0x00 ∷ 0x00 ∷ 0x00 ∷ [])
    ∷ (0x00 ∷ 0x00 ∷ 0x00 ∷ 0x00 ∷ 0x00 ∷ 0x18 ∷ 0x18 ∷ 0x00 ∷ [])
    ∷ (0x02 ∷ 0x04 ∷ 0x08 ∷ 0x10 ∷ 0x20 ∷ 0x40 ∷ 0x80 ∷ 0x00 ∷ [])
    ∷ (0x3C ∷ 0x46 ∷ 0x4A ∷ 0x52 ∷ 0x62 ∷ 0x42 ∷ 0x3C ∷ 0x00 ∷ [])
    ∷ (0x08 ∷ 0x18 ∷ 0x28 ∷ 0x08 ∷ 0x08 ∷ 0x08 ∷ 0x3E ∷ 0x00 ∷ [])
    ∷ (0x3C ∷ 0x42 ∷ 0x02 ∷ 0x04 ∷ 0x18 ∷ 0x20 ∷ 0x7E ∷ 0x00 ∷ [])
    ∷ (0x3C ∷ 0x42 ∷ 0x02 ∷ 0x1C ∷ 0x02 ∷ 0x42 ∷ 0x3C ∷ 0x00 ∷ [])
    ∷ (0x04 ∷ 0x0C ∷ 0x14 ∷ 0x24 ∷ 0x7E ∷ 0x04 ∷ 0x04 ∷ 0x00 ∷ [])
    ∷ (0x7E ∷ 0x40 ∷ 0x78 ∷ 0x04 ∷ 0x02 ∷ 0x44 ∷ 0x38 ∷ 0x00 ∷ [])
    ∷ (0x1C ∷ 0x20 ∷ 0x40 ∷ 0x7C ∷ 0x42 ∷ 0x42 ∷ 0x3C ∷ 0x00 ∷ [])
    ∷ (0x7E ∷ 0x02 ∷ 0x04 ∷ 0x08 ∷ 0x10 ∷ 0x20 ∷ 0x20 ∷ 0x00 ∷ [])
    ∷ (0x3C ∷ 0x42 ∷ 0x42 ∷ 0x3C ∷ 0x42 ∷ 0x42 ∷ 0x3C ∷ 0x00 ∷ [])
    ∷ (0x3C ∷ 0x42 ∷ 0x42 ∷ 0x3E ∷ 0x02 ∷ 0x04 ∷ 0x38 ∷ 0x00 ∷ [])
    ∷ (0x00 ∷ 0x18 ∷ 0x18 ∷ 0x00 ∷ 0x00 ∷ 0x18 ∷ 0x18 ∷ 0x00 ∷ [])
    ∷ (0x00 ∷ 0x18 ∷ 0x18 ∷ 0x00 ∷ 0x00 ∷ 0x18 ∷ 0x18 ∷ 0x30 ∷ [])
    ∷ (0x04 ∷ 0x08 ∷ 0x10 ∷ 0x20 ∷ 0x10 ∷ 0x08 ∷ 0x04 ∷ 0x00 ∷ [])
    ∷ (0x00 ∷ 0x00 ∷ 0x7E ∷ 0x00 ∷ 0x7E ∷ 0x00 ∷ 0x00 ∷ 0x00 ∷ [])
    ∷ (0x20 ∷ 0x10 ∷ 0x08 ∷ 0x04 ∷ 0x08 ∷ 0x10 ∷ 0x20 ∷ 0x00 ∷ [])
    ∷ (0x3C ∷ 0x42 ∷ 0x02 ∷ 0x0C ∷ 0x10 ∷ 0x00 ∷ 0x10 ∷ 0x00 ∷ [])
    ∷ (0x3C ∷ 0x42 ∷ 0x4E ∷ 0x52 ∷ 0x4E ∷ 0x40 ∷ 0x3C ∷ 0x00 ∷ [])
    ∷ (0x18 ∷ 0x24 ∷ 0x42 ∷ 0x42 ∷ 0x7E ∷ 0x42 ∷ 0x42 ∷ 0x00 ∷ [])
    ∷ (0x7C ∷ 0x42 ∷ 0x42 ∷ 0x7C ∷ 0x42 ∷ 0x42 ∷ 0x7C ∷ 0x00 ∷ [])
    ∷ (0x3C ∷ 0x42 ∷ 0x40 ∷ 0x40 ∷ 0x40 ∷ 0x42 ∷ 0x3C ∷ 0x00 ∷ [])
    ∷ (0x78 ∷ 0x44 ∷ 0x42 ∷ 0x42 ∷ 0x42 ∷ 0x44 ∷ 0x78 ∷ 0x00 ∷ [])
    ∷ (0x7E ∷ 0x40 ∷ 0x40 ∷ 0x78 ∷ 0x40 ∷ 0x40 ∷ 0x7E ∷ 0x00 ∷ [])
    ∷ (0x7E ∷ 0x40 ∷ 0x40 ∷ 0x78 ∷ 0x40 ∷ 0x40 ∷ 0x40 ∷ 0x00 ∷ [])
    ∷ (0x3C ∷ 0x42 ∷ 0x40 ∷ 0x4E ∷ 0x42 ∷ 0x42 ∷ 0x3C ∷ 0x00 ∷ [])
    ∷ (0x42 ∷ 0x42 ∷ 0x42 ∷ 0x7E ∷ 0x42 ∷ 0x42 ∷ 0x42 ∷ 0x00 ∷ [])
    ∷ (0x3E ∷ 0x08 ∷ 0x08 ∷ 0x08 ∷ 0x08 ∷ 0x08 ∷ 0x3E ∷ 0x00 ∷ [])
    ∷ (0x02 ∷ 0x02 ∷ 0x02 ∷ 0x02 ∷ 0x42 ∷ 0x42 ∷ 0x3C ∷ 0x00 ∷ [])
    ∷ (0x42 ∷ 0x44 ∷ 0x48 ∷ 0x70 ∷ 0x48 ∷ 0x44 ∷ 0x42 ∷ 0x00 ∷ [])
    ∷ (0x40 ∷ 0x40 ∷ 0x40 ∷ 0x40 ∷ 0x40 ∷ 0x40 ∷ 0x7E ∷ 0x00 ∷ [])
    ∷ (0x42 ∷ 0x66 ∷ 0x5A ∷ 0x5A ∷ 0x42 ∷ 0x42 ∷ 0x42 ∷ 0x00 ∷ [])
    ∷ (0x42 ∷ 0x62 ∷ 0x52 ∷ 0x4A ∷ 0x46 ∷ 0x42 ∷ 0x42 ∷ 0x00 ∷ [])
    ∷ (0x3C ∷ 0x42 ∷ 0x42 ∷ 0x42 ∷ 0x42 ∷ 0x42 ∷ 0x3C ∷ 0x00 ∷ [])
    ∷ (0x7C ∷ 0x42 ∷ 0x42 ∷ 0x7C ∷ 0x40 ∷ 0x40 ∷ 0x40 ∷ 0x00 ∷ [])
    ∷ (0x3C ∷ 0x42 ∷ 0x42 ∷ 0x42 ∷ 0x4A ∷ 0x44 ∷ 0x3A ∷ 0x00 ∷ [])
    ∷ (0x7C ∷ 0x42 ∷ 0x42 ∷ 0x7C ∷ 0x44 ∷ 0x42 ∷ 0x42 ∷ 0x00 ∷ [])
    ∷ (0x3C ∷ 0x42 ∷ 0x40 ∷ 0x3C ∷ 0x02 ∷ 0x42 ∷ 0x3C ∷ 0x00 ∷ [])
    ∷ (0xFE ∷ 0x10 ∷ 0x10 ∷ 0x10 ∷ 0x10 ∷ 0x10 ∷ 0x10 ∷ 0x00 ∷ [])
    ∷ (0x42 ∷ 0x42 ∷ 0x42 ∷ 0x42 ∷ 0x42 ∷ 0x42 ∷ 0x3C ∷ 0x00 ∷ [])
    ∷ (0x42 ∷ 0x42 ∷ 0x42 ∷ 0x42 ∷ 0x42 ∷ 0x24 ∷ 0x18 ∷ 0x00 ∷ [])
    ∷ (0x42 ∷ 0x42 ∷ 0x42 ∷ 0x5A ∷ 0x5A ∷ 0x66 ∷ 0x42 ∷ 0x00 ∷ [])
    ∷ (0x42 ∷ 0x42 ∷ 0x24 ∷ 0x18 ∷ 0x24 ∷ 0x42 ∷ 0x42 ∷ 0x00 ∷ [])
    ∷ (0x82 ∷ 0x44 ∷ 0x28 ∷ 0x10 ∷ 0x10 ∷ 0x10 ∷ 0x10 ∷ 0x00 ∷ [])
    ∷ (0x7E ∷ 0x02 ∷ 0x04 ∷ 0x18 ∷ 0x20 ∷ 0x40 ∷ 0x7E ∷ 0x00 ∷ [])
    ∷ (0x3E ∷ 0x20 ∷ 0x20 ∷ 0x20 ∷ 0x20 ∷ 0x20 ∷ 0x3E ∷ 0x00 ∷ [])
    ∷ (0x80 ∷ 0x40 ∷ 0x20 ∷ 0x10 ∷ 0x08 ∷ 0x04 ∷ 0x02 ∷ 0x00 ∷ [])
    ∷ (0x7C ∷ 0x04 ∷ 0x04 ∷ 0x04 ∷ 0x04 ∷ 0x04 ∷ 0x7C ∷ 0x00 ∷ [])
    ∷ (0x10 ∷ 0x38 ∷ 0x6C ∷ 0x82 ∷ 0x00 ∷ 0x00 ∷ 0x00 ∷ 0x00 ∷ [])
    ∷ (0x00 ∷ 0x00 ∷ 0x00 ∷ 0x00 ∷ 0x00 ∷ 0x00 ∷ 0x00 ∷ 0xFF ∷ [])
    ∷ (0x18 ∷ 0x18 ∷ 0x0C ∷ 0x00 ∷ 0x00 ∷ 0x00 ∷ 0x00 ∷ 0x00 ∷ [])
    ∷ (0x00 ∷ 0x00 ∷ 0x3C ∷ 0x02 ∷ 0x3E ∷ 0x42 ∷ 0x3E ∷ 0x00 ∷ [])
    ∷ (0x40 ∷ 0x40 ∷ 0x5C ∷ 0x62 ∷ 0x42 ∷ 0x62 ∷ 0x5C ∷ 0x00 ∷ [])
    ∷ (0x00 ∷ 0x00 ∷ 0x3C ∷ 0x42 ∷ 0x40 ∷ 0x42 ∷ 0x3C ∷ 0x00 ∷ [])
    ∷ (0x02 ∷ 0x02 ∷ 0x3A ∷ 0x46 ∷ 0x42 ∷ 0x46 ∷ 0x3A ∷ 0x00 ∷ [])
    ∷ (0x00 ∷ 0x00 ∷ 0x3C ∷ 0x42 ∷ 0x7E ∷ 0x40 ∷ 0x3C ∷ 0x00 ∷ [])
    ∷ (0x0C ∷ 0x12 ∷ 0x10 ∷ 0x7C ∷ 0x10 ∷ 0x10 ∷ 0x10 ∷ 0x00 ∷ [])
    ∷ (0x00 ∷ 0x3A ∷ 0x46 ∷ 0x46 ∷ 0x3A ∷ 0x02 ∷ 0x3C ∷ 0x00 ∷ [])
    ∷ (0x40 ∷ 0x40 ∷ 0x5C ∷ 0x62 ∷ 0x42 ∷ 0x42 ∷ 0x42 ∷ 0x00 ∷ [])
    ∷ (0x08 ∷ 0x00 ∷ 0x18 ∷ 0x08 ∷ 0x08 ∷ 0x08 ∷ 0x3E ∷ 0x00 ∷ [])
    ∷ (0x04 ∷ 0x00 ∷ 0x0C ∷ 0x04 ∷ 0x04 ∷ 0x44 ∷ 0x38 ∷ 0x00 ∷ [])
    ∷ (0x40 ∷ 0x40 ∷ 0x44 ∷ 0x48 ∷ 0x70 ∷ 0x48 ∷ 0x44 ∷ 0x00 ∷ [])
    ∷ (0x18 ∷ 0x08 ∷ 0x08 ∷ 0x08 ∷ 0x08 ∷ 0x08 ∷ 0x3E ∷ 0x00 ∷ [])
    ∷ (0x00 ∷ 0x00 ∷ 0xFC ∷ 0x92 ∷ 0x92 ∷ 0x92 ∷ 0x92 ∷ 0x00 ∷ [])
    ∷ (0x00 ∷ 0x00 ∷ 0x5C ∷ 0x62 ∷ 0x42 ∷ 0x42 ∷ 0x42 ∷ 0x00 ∷ [])
    ∷ (0x00 ∷ 0x00 ∷ 0x3C ∷ 0x42 ∷ 0x42 ∷ 0x42 ∷ 0x3C ∷ 0x00 ∷ [])
    ∷ (0x00 ∷ 0x5C ∷ 0x62 ∷ 0x62 ∷ 0x5C ∷ 0x40 ∷ 0x40 ∷ 0x00 ∷ [])
    ∷ (0x00 ∷ 0x3A ∷ 0x46 ∷ 0x46 ∷ 0x3A ∷ 0x02 ∷ 0x02 ∷ 0x00 ∷ [])
    ∷ (0x00 ∷ 0x00 ∷ 0x5C ∷ 0x62 ∷ 0x40 ∷ 0x40 ∷ 0x40 ∷ 0x00 ∷ [])
    ∷ (0x00 ∷ 0x00 ∷ 0x3E ∷ 0x40 ∷ 0x3C ∷ 0x02 ∷ 0x7C ∷ 0x00 ∷ [])
    ∷ (0x10 ∷ 0x10 ∷ 0x7C ∷ 0x10 ∷ 0x10 ∷ 0x12 ∷ 0x0C ∷ 0x00 ∷ [])
    ∷ (0x00 ∷ 0x00 ∷ 0x42 ∷ 0x42 ∷ 0x42 ∷ 0x46 ∷ 0x3A ∷ 0x00 ∷ [])
    ∷ (0x00 ∷ 0x00 ∷ 0x42 ∷ 0x42 ∷ 0x42 ∷ 0x24 ∷ 0x18 ∷ 0x00 ∷ [])
    ∷ (0x00 ∷ 0x00 ∷ 0x92 ∷ 0x92 ∷ 0x92 ∷ 0x92 ∷ 0x6C ∷ 0x00 ∷ [])
    ∷ (0x00 ∷ 0x00 ∷ 0x42 ∷ 0x24 ∷ 0x18 ∷ 0x24 ∷ 0x42 ∷ 0x00 ∷ [])
    ∷ (0x00 ∷ 0x00 ∷ 0x42 ∷ 0x42 ∷ 0x46 ∷ 0x3A ∷ 0x02 ∷ 0x3C ∷ [])
    ∷ (0x00 ∷ 0x00 ∷ 0x7E ∷ 0x04 ∷ 0x18 ∷ 0x20 ∷ 0x7E ∷ 0x00 ∷ [])
    ∷ (0x0E ∷ 0x10 ∷ 0x10 ∷ 0x60 ∷ 0x10 ∷ 0x10 ∷ 0x0E ∷ 0x00 ∷ [])
    ∷ (0x18 ∷ 0x18 ∷ 0x18 ∷ 0x00 ∷ 0x18 ∷ 0x18 ∷ 0x18 ∷ 0x00 ∷ [])
    ∷ (0x70 ∷ 0x08 ∷ 0x08 ∷ 0x06 ∷ 0x08 ∷ 0x08 ∷ 0x70 ∷ 0x00 ∷ [])
    ∷ (0x00 ∷ 0x00 ∷ 0x62 ∷ 0x92 ∷ 0x8C ∷ 0x00 ∷ 0x00 ∷ 0x00 ∷ [])
    ∷ []
