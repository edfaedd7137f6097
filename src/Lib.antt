-- ===== src/Lib.antt =====
-- Verification of the ESP-MDF components, the mesh development framework that this repository ships in
-- esp-mdf/components. Nodes of a mesh send messages to one another, a root node distributes firmware
-- to them, and devices are debugged over ESP-NOW.
--
-- Prelude: shared names, Boolean tests on the native numbers, and lists measured by them.
--
-- Mcommon: esp-mdf/components/mcommon.
--   Err: the error codes of include/mdf_err.h, as the bit patterns of 32 bits.
--   EventLoop: mdf_event_loop.c. The state is the queue and the handler, and each function of the
--     source is one of the model; Order is about the events in the queue.
--   Mem: the table of allocations of mdf_mem.c; Count is about the number of its records.
--   InfoStore: mdf_info_store.c, information that survives a restart. Laws states it as a dictionary,
--     the record Store, which Mlink.Trigger.Listing takes as an argument.
--
-- Mconfig: esp-mdf/components/mconfig. Queue: mconfig_queue.c, a queue for one configuration.
--
-- Mdebug: esp-mdf/components/mdebug. Flash: the log of mdebug_flash.c, two files of a flash partition.
--   Cells is about bytes in the flash, Place about the files in it, and Queue, Read, Append and Write
--   about the log as a queue of bytes.
--
-- Mespnow: esp-mdf/components/mespnow/mespnow.c, messages of many packets over ESP-NOW.
--   Frame: the packet and its bytes. State: the variables of the file.
--   Write: mespnow_write. Receive: mespnow_recv_cb. Read: mespnow_read. Peer: the list of peers.
--   Setup: mespnow_init, mespnow_deinit and mespnow_send_cb.
--   Channel: both ends together, for a link that repeats packets and loses acknowledgements.
--
-- Mlink: esp-mdf/components/mlink, the control of devices by requests in JSON.
--   Json: the printer of mlink_json.c, __mlink_json_pack and mlink_json_pack_double, on the bytes of
--     the memory behind its pointer; Bytes, Places, Members and Render are about the text that it
--     makes, Room about the memory, Unfinished about where it goes wrong.
--   Parse: __mlink_json_parse, over what cJSON gives.
--   Handle: the table of handlers of mlink_handle.c, mlink_set_handle, mlink_handle_request and
--     mlink_handle, which reads a request by Parse and prints its answer by Json.
--   Device: the information on the device in mlink_handle.c, of which name and position are stored;
--     Status: mlink_handle_get_status, whose Shows is about the answer and Asked about the request.
--     Requests: the handlers that set values, the name and the position; Sets is about the values.
--   Trigger: mlink_trigger.c, the triggers that link the values of a device to requests to other
--     devices. Parse reads one, Listing is the list with its stored copy and the handlers of requests
--     for it, Init the list after a restart, Report the answer that shows it. Keys: the words in the
--     code.
--
-- Mwifi: esp-mdf/components/mwifi/mwifi.c, messages over the mesh.
--   Err and Packet: the error codes, and the head of a packet. Fragment: mwifi_subcontract_write, which
--     sends a message in packets. Receive and RootRead: __mwifi_root_read, by which the root puts them
--     together; NodeRead: __mwifi_read, by which the other nodes do, and forward messages.
--   Transmit: mwifi_transmit_write, which sends a message on to many devices.
--   Write and RootWrite: mwifi_write and mwifi_root_write, the calls that send.
--   Config, Lifecycle, Events and Start: the globals, the functions that set up and take down the
--     component, the callbacks for events, and what mwifi_start asks of the mesh library.
--   Reach: the states that these lead to, as a relation.
-- Write, RootWrite and NodeRead call Fragment and Transmit as the source does. What Fragment sends,
-- Receive and NodeRead take as answers of the mesh library, each of which holds a packet or an error.
--
-- Mupgrade: esp-mdf/components/mupgrade, the upgrade of the firmware.
--   Kmp and Check: mupgrade_check.c, the search for the flag of the project in an image, the test of
--     an image, the fall-back to another image and its trigger.
--   Progress: the bits of include/mupgrade.h that say which packets have been written.
--   Download: the functions of mupgrade_root.c by which the root gets the firmware.
--   Root and Send: mupgrade_request_status and mupgrade_firmware_send of mupgrade_root.c.
--   Node: mupgrade_node.c, the device that is upgraded. In mupgrade_write no result stands for a division
--   by a total size of 0, an access past the progress array and a write to a null partition.
-- The root and a device exchange packets and reports: `Send.Sending` and `Node.Write.Packet` are the
-- packets, `Root.Report` and `Node.Status` the reports.
--
-- What the system answers (FreeRTOS, the Wi-Fi library, the OTA library, flash and memory) is an
-- argument of each model, a record of answers, and what it is asked to do is in the result, as a list
-- of effects, calls or events. The checksum is a function that the theorems take as a parameter.
-- A null pointer is `none`, and an access that is not defined in C is `none` as a result.
--
-- Loops are recursions on what they go through, on the number of turns, or on fuel: fall_back of Kmp
-- gets as much fuel as the match is long, since each turn shortens it; write_loop of Mespnow.Write one
-- more than the number of bytes, since each turn takes some; so does write_fragments of Fragment. The
-- loop of RootRead that tries larger buffers for a compressed message has a fuel of its own: one more
-- than the length of the message is enough. The rounds of NodeRead use an answer each, and get one
-- more than there are answers.
--
-- Not modelled: in mwifi, the print of the settings, time limits and types of service; the
-- configuration of devices over Bluetooth and ESP-NOW (mconfig), the other handlers in mlink_handle.c
-- and the other files of mlink, the console and the other files of mdebug, which are further parts of
-- the program; logging; the tasks and timers of FreeRTOS but for the steps they take;
-- third_party, which is the code of other projects; src/main.c, which only starts the framework.
pub mod Prelude
pub mod Mcommon
pub mod Mconfig
pub mod Mdebug
pub mod Mespnow
pub mod Mlink
pub mod Mupgrade
pub mod Mwifi
