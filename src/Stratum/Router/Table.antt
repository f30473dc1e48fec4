-- ===== src/Stratum/Router/Table.antt =====
-- internal/stratum/router.go: RouterTable, the signatures of the devices, family by family.
use Prim.Native.String.{String}
use pipool.Base.{ℕ, List, [], ◌∷◌, ◌++◌}
use pipool.Go.Float.{Float64}
use pipool.Go.Strings.{codes}
use pipool.Stratum.Router.{DeviceSignature}

module _ {F : Type 0} (f64 : Float64 F) where
  -- `{pattern, DeviceClass{name, algorithm, startDiff, maxDiff, description, watts}}`
  abbrev pub signature : String → String → String → F → F → String → ℕ → DeviceSignature F
  signature pattern name algorithm start_diff max_diff description watts = record {
    pattern = codes pattern;
    class = record {
      name = codes name;
      algorithm = codes algorithm;
      start_diff = start_diff;
      max_diff = max_diff;
      description = codes description;
      watts_estimate = f64.lit watts 0;
    };
  }

  abbrev sha256d : String → String → ℕ → ℕ → String → ℕ → DeviceSignature F
  sha256d pattern name start_diff max_diff description watts =
      signature pattern name "sha256d" (f64.lit start_diff 0) (f64.lit max_diff 0) description watts

  abbrev scrypt : String → String → ℕ → ℕ → String → ℕ → DeviceSignature F
  scrypt pattern name start_diff max_diff description watts =
      signature pattern name "scrypt" (f64.lit start_diff 0) (f64.lit max_diff 0) description watts

  -- BitAxe  ESP-Miner family (ESP32-based open source ASIC boards)
  abbrev pub bitaxe_family : List (DeviceSignature F)
  bitaxe_family =
      sha256d "bitaxeultra" "BitAxe Ultra" 4096 16384 "BitAxe Ultra BM1366 ~500 GH/s" 15
      ∷ sha256d "bitaxegamma" "BitAxe Gamma" 8192 32768 "BitAxe Gamma BM1370 ~1.2 TH/s" 20
      ∷ sha256d "bitaxe" "BitAxe" 2048 16384 "BitAxe ESP32 ASIC ~200 GH/s - 1 TH/s" 15
      ∷ sha256d "nerdoctaxe" "NerdOCTAXE" 4096 32768 "NerdOCTAXE 8-ASIC ESP32 board ~1-4 TH/s" 60
      ∷ sha256d "octaxe" "Octaxe" 4096 32768 "Octaxe 8-ASIC ESP32 board ~1-4 TH/s" 60
      ∷ sha256d "luckyminer" "LuckyMiner" 4096 16384 "LuckyMiner ~1 TH/s" 15
      ∷ sha256d "nerdaxe" "NerdAxe" 512 4096 "NerdAxe ~200 GH/s" 10
      ∷ sha256d "nerdqaxe" "NerdQAxe" 2048 16384 "NerdQAxe quad ~800 GH/s" 40
      ∷ sha256d "esp-miner" "ESP-Miner" 512 4096 "ESP-Miner firmware (generic)" 15
      ∷ []

  -- Plexsource (Scrypt)
  abbrev pub plexsource : List (DeviceSignature F)
  plexsource =
      scrypt "volc/msbt" "Plexsource PM120" 256 4096 "Plexsource PM120 ~120 MH/s" 30
      ∷ scrypt "plexsource" "Plexsource" 256 4096 "Plexsource Scrypt miner" 30
      ∷ []

  -- Antminer S-series (SHA-256d)
  abbrev pub antminer_s : List (DeviceSignature F)
  antminer_s =
      sha256d "antminer s9" "Antminer S9" 8192 65536 "Bitmain S9 ~14 TH/s" 1323
      ∷ sha256d "antminer s17" "Antminer S17" 32768 131072 "Bitmain S17 ~56 TH/s" 2520
      ∷ sha256d "antminer s19" "Antminer S19" 65536 524288 "Bitmain S19 ~95-110 TH/s" 3250
      ∷ sha256d "antminer s19j" "Antminer S19j Pro" 131072 524288 "Bitmain S19j Pro ~104 TH/s" 3068
      ∷ sha256d "antminer s19k" "Antminer S19k Pro" 131072 524288 "Bitmain S19k Pro ~120 TH/s" 2760
      ∷ sha256d "antminer s19 pro+" "Antminer S19 Pro+" 131072 1048576 "Bitmain S19 Pro+ ~120 TH/s"
          3400
      ∷ sha256d "antminer s19xp" "Antminer S19 XP" 196608 1048576 "Bitmain S19 XP ~140 TH/s" 3010
      ∷ sha256d "antminer s21" "Antminer S21" 262144 2097152 "Bitmain S21 ~200 TH/s" 3500
      ∷ sha256d "antminer s21+" "Antminer S21+" 393216 2097152 "Bitmain S21+ ~280 TH/s" 4500
      ∷ sha256d "antminer s21 pro" "Antminer S21 Pro" 393216 2097152 "Bitmain S21 Pro ~234 TH/s"
          3551
      ∷ sha256d "antminer s21 xp" "Antminer S21 XP" 524288 4194304 "Bitmain S21 XP ~270 TH/s" 3850
      ∷ []

  -- Antminer L-series (Scrypt)
  abbrev pub antminer_l : List (DeviceSignature F)
  antminer_l =
      scrypt "antminer l3+" "Antminer L3+" 32 512 "Bitmain L3+ ~504 MH/s" 800
      ∷ scrypt "antminer l7" "Antminer L7" 4096 32768 "Bitmain L7 ~9.5 GH/s" 3425
      ∷ scrypt "antminer l9" "Antminer L9" 8192 65536 "Bitmain L9 ~16 GH/s" 3360
      ∷ scrypt "antminer l3" "Antminer L3" 16 256 "Bitmain L3 ~250 MH/s" 700
      ∷ []

  -- Whatsminer (SHA-256d)
  abbrev pub whatsminer : List (DeviceSignature F)
  whatsminer =
      sha256d "whatsminer m20" "Whatsminer M20" 32768 262144 "MicroBT M20 ~68 TH/s" 3360
      ∷ sha256d "whatsminer m30" "Whatsminer M30" 65536 524288 "MicroBT M30 ~86-112 TH/s" 3268
      ∷ sha256d "whatsminer m30s+" "Whatsminer M30S+" 131072 524288 "MicroBT M30S+ ~100-112 TH/s"
          3400
      ∷ sha256d "whatsminer m30s++" "Whatsminer M30S++" 131072 524288 "MicroBT M30S++ ~112 TH/s"
          3472
      ∷ sha256d "whatsminer m50" "Whatsminer M50" 196608 1048576 "MicroBT M50 ~126 TH/s" 3276
      ∷ sha256d "whatsminer m50s" "Whatsminer M50S" 262144 2097152 "MicroBT M50S ~150 TH/s" 3600
      ∷ sha256d "whatsminer m53" "Whatsminer M53" 262144 2097152 "MicroBT M53 ~226 TH/s" 6888
      ∷ sha256d "whatsminer m60" "Whatsminer M60" 196608 1048576 "MicroBT M60 ~186 TH/s" 3344
      ∷ sha256d "whatsminer m63" "Whatsminer M63" 393216 2097152 "MicroBT M63 ~390 TH/s" 6900
      ∷ []

  -- Avalon (SHA-256d)
  abbrev pub avalon : List (DeviceSignature F)
  avalon =
      sha256d "avalon 1166" "Avalon 1166" 65536 524288 "Canaan Avalon 1166 ~68 TH/s" 3400
      ∷ sha256d "avalon 1246" "Avalon 1246" 65536 524288 "Canaan Avalon 1246 ~90 TH/s" 3420
      ∷ sha256d "avalon 1346" "Avalon 1346" 131072 1048576 "Canaan Avalon 1346 ~120 TH/s" 3540
      ∷ sha256d "avalon 1366" "Avalon 1366" 131072 1048576 "Canaan Avalon 1366 ~130 TH/s" 3530
      ∷ sha256d "avalon mini 3" "Avalon Mini 3" 4096 32768 "Canaan Avalon Mini 3 ~37.5 TH/s" 1230
      ∷ sha256d "avalon nano 3" "Avalon Nano 3" 512 4096 "Canaan Avalon Nano 3 ~4 TH/s" 140
      ∷ sha256d "avalonminer" "AvalonMiner" 32768 262144 "Canaan AvalonMiner (generic)" 3000
      ∷ []

  -- Goldshell (Scrypt + SHA-256d)
  abbrev pub goldshell : List (DeviceSignature F)
  goldshell =
      scrypt "goldshell lt5" "Goldshell LT5" 256 2048 "Goldshell LT5 ~2.45 GH/s" 2080
      ∷ scrypt "goldshell lt6" "Goldshell LT6" 512 4096 "Goldshell LT6 ~3.35 GH/s" 3200
      ∷ scrypt "goldshell mini-doge" "Goldshell Mini-DOGE" 64 512 "Goldshell Mini-DOGE ~185 MH/s"
          233
      ∷ scrypt "goldshell mini-doge pro" "Goldshell Mini-DOGE Pro" 128 1024
          "Goldshell Mini-DOGE Pro ~233 MH/s" 250
      ∷ sha256d "goldshell hs" "Goldshell HS" 8192 65536 "Goldshell HS-series" 2000
      ∷ sha256d "goldshell" "Goldshell (generic)" 256 2048 "Goldshell generic" 1500
      ∷ []

  -- Jasminer (SHA-256d)
  abbrev pub jasminer : List (DeviceSignature F)
  jasminer =
      sha256d "jasminer x4" "Jasminer X4" 32768 262144 "Jasminer X4 ~80 TH/s" 1040
      ∷ sha256d "jasminer x16" "Jasminer X16" 131072 1048576 "Jasminer X16 ~130 TH/s" 1720
      ∷ []

  -- Elphapex (Scrypt)
  abbrev pub elphapex : List (DeviceSignature F)
  elphapex =
      scrypt "elphapex dg home 1" "Elphapex DG Home 1" 128 2048 "Elphapex DG Home 1 ~2 GH/s" 630
      ∷ scrypt "elphapex dg1+" "Elphapex DG1+" 256 4096 "Elphapex DG1+ ~11 GH/s" 3300
      ∷ scrypt "elphapex dg1" "Elphapex DG1" 256 4096 "Elphapex DG1 ~11 GH/s" 3300
      ∷ scrypt "elphapex" "Elphapex" 64 1024 "Elphapex (generic)" 1200
      ∷ []

  -- Hammer  iPollo  Innosilicon (Scrypt)
  abbrev pub hammer : List (DeviceSignature F)
  hammer =
      scrypt "hammer d9" "Hammer D9" 4096 32768 "Hammer D9 Scrypt" 3068
      ∷ sha256d "ipollo v1" "iPollo V1" 16384 131072 "iPollo V1 ~130 TH/s" 4320
      ∷ scrypt "innosilicon a6+" "Innosilicon A6+" 2048 16384 "Innosilicon A6+ LTCMaster ~2.2 GH/s"
          2100
      ∷ scrypt "innosilicon a4+" "Innosilicon A4+" 512 4096 "Innosilicon A4+ ~620 MH/s" 750
      ∷ scrypt "innosilicon" "Innosilicon" 256 2048 "Innosilicon (generic)" 1500
      ∷ []

  -- FutureBit (Scrypt)
  abbrev pub futurebit : List (DeviceSignature F)
  futurebit =
      scrypt "futurebit apollo" "FutureBit Apollo" 128 1024 "FutureBit Apollo ~100-150 MH/s" 250
      ∷ scrypt "futurebit moonlander" "FutureBit Moonlander" 4 64 "FutureBit Moonlander 2 ~5 MH/s" 7
      ∷ []

  -- CPU miners (very low hashrate — scrypt or sha256d)
  abbrev pub cpu_miners : List (DeviceSignature F)
  cpu_miners =
      signature "cpuminer-opt" "cpuminer-opt" "scrypt" (f64.lit 1 3) (f64.lit 1 0)
        "cpuminer-opt (CPU)" 65
      ∷ signature "cpuminer" "cpuminer" "scrypt" (f64.lit 1 3) (f64.lit 1 0) "cpuminer (CPU)" 65
      ∷ signature "xmrig" "XMRig" "sha256d" (f64.lit 1 3) (f64.lit 1 0) "XMRig (CPU)" 65
      ∷ sha256d "bfgminer" "BFGMiner" 1 1024 "BFGMiner" 65
      ∷ sha256d "cgminer" "CGMiner" 1 1024 "CGMiner" 65
      ∷ []

  -- ESP32 lottery miners
  abbrev pub esp32_miners : List (DeviceSignature F)
  esp32_miners =
      signature "esp32" "ESP32 Miner" "sha256d" (f64.lit 1 3) (f64.lit 1 1)
        "ESP32 DIY lottery miner ~10-100 KH/s" 1
      ∷ signature "public-pool" "ESP32 (public-pool fw)" "sha256d" (f64.lit 1 3) (f64.lit 1 1)
          "ESP32 public-pool firmware" 1
      ∷ signature "solo-miner" "Solo Miner (generic)" "sha256d" (f64.lit 1 3) (f64.lit 1 0)
          "Generic solo miner firmware" 65
      ∷ []

  abbrev pub router_table : List (DeviceSignature F)
  router_table =
      bitaxe_family
      ++ (plexsource
          ++ (antminer_s
              ++ (antminer_l
                  ++ (whatsminer
                      ++ (avalon
                          ++ (goldshell
                              ++ (jasminer
                                  ++ (elphapex
                                      ++ (hammer
                                          ++ (futurebit ++ (cpu_miners ++ (esp32_miners))))))))))))
