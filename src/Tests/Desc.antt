-- ===== src/Tests/Desc.antt =====
-- One descriptor whose words hold other data.
use xpcie.Base.{◌≡◌, false, arith}
use xpcie.Desc.{Desc, xdma_desc_set}
use xpcie.Desc.Address.{host_addr, card_addr, byte_count, xdma_desc_set_lem}
use xpcie.Tests.World.{machine, old_desc}

abbrev old : Desc
old = record old_desc { control = 0x1234_3f13; next_lo = 0xfc0; next_hi = 1 }

xdma_desc_set_lem_example :
    let d = xdma_desc_set machine old 0x1_2345_6789 0x9_8765_4321 300 false in
    (host_addr machine false d ≡ 0x1_2345_6789)
    × (card_addr machine false d ≡ 0x9_8765_4321)
    × (byte_count machine d ≡ 300)
    × (d.control ≡ 0x1234_3f13)
    × (d.next_lo ≡ 0xfc0)
    × (d.next_hi ≡ 1)
xdma_desc_set_lem_example =
    xdma_desc_set_lem machine old 0x1_2345_6789 0x9_8765_4321 300 false (omega arith) (omega arith)
      (omega arith)
