-- ===== src/Lib.antt =====
-- The firmware of a hydroponic closet: an ESP32 that waters plants in turns, reads a temperature
-- and a humidity sensor, and gets its Wi-Fi credentials as a file sent over Bluetooth.
--
-- The parts and where they are modelled. All paths below src/main/include unless they say more.
--
-- Bluetooth, blue/bt_main.c. The radio controller calls `host_rcv_pkt` with one packet at a time.
-- It hands HCI events to `hci_event_handler` and ACL packets to `l2cap_cmd_handler`, which answers
-- the signalling channel, service discovery and, by `obex_ftp`, a file transfer. Answers go to a
-- FreeRTOS queue, which the task `send` empties into the controller.
--   Crc            crc16_byte, crc16; Crc.Table the table of crc16; Crc.Bitwise and Crc.Residue
--                  its theory; Crc.Detect what a receiver finds with it
--   Bt.Codes       the packet types, events, commands and opcodes of blue/bt_main.h
--   Bt.Stream      the macros that write to cmd_buf, and cmd_buf itself
--   Bt.State       the globals of the handlers, `set_dir`, and `queue_packet` as a log of what it
--                  is given
--   Bt.Config      `conf_req`
--   Bt.Signal      the signalling commands of `l2cap_cmd_handler`
--   Bt.Sdp         its answers to service discovery
--   Bt.Obex        the answers of `obex_ftp`
--   Bt.Put         the loop of `obex_ftp` over the headers of a PUT
--   Bt.Handler     `obex_ftp`, `l2cap_cmd_handler`, `acl_event_handler`, `host_rcv_pkt`
--   Bt.Hci         `hci_event_handler` and the commands of the advertising task
--   Bt.Advert      `btAdvtTask`
--   Bt.Framing     the form of the packets that are queued; Bt.Framing.Delivered follows them to
--                  the controller
--   Bt.Entry       the size of the entries of the queue, and the range of their bytes
--   Bt.Protocol    the signalling channel as a protocol of requests and messages, without bytes;
--                  Bt.Protocol.Obex the answers of `obex_ftp`, Bt.Protocol.Discovery the service
--                  records, Bt.Protocol.Server all of it together as a server with channels, a
--                  file and the packets that it has sent
--   Bt.Start       `init_queue`, `start_bt`, `init_bt`
--   Bt.Receive     what a PUT stores, when its loop ends, which packets reach `obex_ftp`, and the
--                  ranges of the globals; Bt.Receive.Object is a PUT as a list of items
--   Bt.Transport   `queue_packet`, each round of its wait a step, and `send` as steps over the
--                  queue
--
-- The closet.
--   Closet.Gpio      the pins and the driver calls on them
--   Closet.Water     actuators/WaterFlow/water_flow.c; Closet.Interlock is about the pins
--   Closet.Routines  `comprobar_rutinas` of src/main/main.cpp, contador/contador.c; Closet.Cycle
--                    and Closet.Modem are about its rounds
--   Closet.Sensors   Protocols/I2C_protocol.c, sensors/Humidity/humidity.c,
--                    sensors/Temperature/temperature.c; Closet.Range is about the values
--   Closet.Fan, Closet.Lights  actuators/Fan/Fan.c, actuators/leds/leds.c
--   Closet.Station   the station's event handler of wifi/wifi_def.c; Closet.Retry is about its retries
--   Closet.Wifi      `wifi_init_sta`, `wifi_init_softap` and its event handler, in the same file;
--                    Closet.Options the build options of wifi/wifi_def.h
--   Closet.Credentials  the loop of src/main/main.cpp that waits for the file of a peer, and the
--                    copies of the credentials in wifi/wifi_def.c
--
-- The main program, src/main/main.cpp. `app_main` configures the pins and the bus, and loops: with
-- credentials it connects to the Wi-Fi; without, it starts Bluetooth and waits for a file of the
-- peer, or looks at the one in the file system. Once online it stays in a loop of its own.
--   App            the main loop; App.StartUp what comes before it, App.Online the loop of an
--                  online closet; App.Invariant, App.Without, App.Received, App.Origin and
--                  App.StoredFile are about its rounds; App.Program puts the three together.
--                  App.Provisioned follows a file from its packets to the Wi-Fi connection.
--                  App.Interleaved is the loop that waits for the file once more, with the
--                  Bluetooth callback between any two of its statements; App.Interleaved.Atomic goes
--                  from the first to the second, App.Interleaved.Quiet from runs of the second in
--                  which packets come in at harmless places back to the first
--   Nvs            the start of the flash storage, in `app_main` and in `init_bt`
--   Esp            lists of calls under ESP_ERROR_CHECK
-- Prelude holds what they share, Tests runs and examples.
--
-- How the code is read. Words are natural numbers with the wrap-around of their C type written
-- out. A received packet is a function over all offsets, since the handlers index it without a
-- test against its length. The array cmd_buf is the bytes written so far and the cells that they
-- were written into, so that an answer written over an older one shows what is left of it. The
-- arrays for the file name and contents are lists of the length the caller gave them; a write past
-- their end is the outcome `overrun`. The outcome `hang` is a loop that never ends: the loop over
-- the headers of a PUT gets as fuel one more than the packet's length, and every round that moves
-- on moves by at least one byte, so fuel runs out exactly where the code turns in place for ever.
-- The copy of a header's bytes gets as fuel the offset at which it stops. The clock is a function
-- from the number of calls of time() so far to what the call delivers, in whole seconds;
-- portTICK_PERIOD_MS is a parameter. The FreeRTOS queue is a parameter with the laws that its
-- documentation states. A driver call is recorded in a list. A sensor reading is the exact value of
-- the formula over a fixed denominator; float rounding is left out.
--
-- `queue_packet` waits in a loop until the FreeRTOS queue, which has ten slots, takes the packet. In
-- the handlers it is a log: it says which packets are queued and in which order, and that a handler
-- returns is to be read up to these waits. The waits are the attempts of Bt.Transport, where a full
-- queue makes the next round of the loop necessary; Bt.Receive.Waits puts the two together.
--
-- The specification of the Bluetooth side is Bt.Protocol.Server: `server_of` in Server.Taken reads
-- the server's state off the globals, two texts for the arrays and the payloads of the queue.
--
-- The radio controller's library is a parameter too, with the laws on its status that
-- Bt.Start.Controller names; the loop that waits for it gets as fuel the number of readings. What
-- the Wi-Fi library, the file system and the flash storage report is a parameter of each round of
-- the main loop, and so are the packets that the Bluetooth callback is handed between two looks
-- at its arrays. There the callback is taken not to run in the middle of a look; App.Interleaved
-- does without this, and takes a call of the C library and one of the callback as a step each.
-- ESP_ERROR_CHECK is read as it is documented: it aborts the program on an error, and so do by
-- themselves the calls that create a default network interface. Each call of `wifi_init_sta`
-- registers the event handler once more; the events of a round are the calls of the handler, so an
-- event that several registrations pass on stands among them as often.
--
-- Not modelled: log output beyond the functions that only log, and the copies of other projects'
-- libraries (src/components/spi_flash, src/components/ssd1306, thingsboard, tgbot), of which the
-- program calls the telemetry client only.
mod Prelude
pub mod Crc
pub mod Bt
pub mod Esp
pub mod Nvs
pub mod Closet
pub mod App
mod Tests
